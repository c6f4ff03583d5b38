-- ===== src/Tests/Commands.antt =====
-- The theorems on the root command, at the options and the environment of a first start.
use virtual_kubelet_cmd.Base.{join, String, string_equality, some, [], ◌∷◌, ◌≡◌, refl}
use virtual_kubelet_cmd.Base.Dict.{Dict, find}
use virtual_kubelet_cmd.Base.Outcome.{ok}
use virtual_kubelet_cmd.Root.Flag.{string_from}
use virtual_kubelet_cmd.Root.Flag.Printed.{set_all, entries_of, HasKeys, set_all-print}

abbrev tags : Dict String String
tags = ("zone", "a=b") ∷ ("rack", "") ∷ []

tags-HasKeys : HasKeys tags
unfolding find
tags-HasKeys = (refl, refl, (refl, refl, tt))

set_all-print_example :
    (string_from "" tags ≡ join ", " (entries_of tags))
    × (set_all (entries_of tags) (some []) ≡ ok (some tags))
set_all-print_example = set_all-print tags tags-HasKeys
