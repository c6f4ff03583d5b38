-- ===== src/Root/Flag.antt =====
-- internal/commands/root/flag.go: the flag of a map of texts.
pub mod Printed
use virtual_kubelet_cmd.Base.{
  String, Option, none, some, [], ◌∷◌, ◌==◌, ◌≡◌, refl, string_equality, if◌then◌else◌, ◌<>◌,
  split_once, is_some,
}
use virtual_kubelet_cmd.Base.Dict.{Dict, find, insert}
use virtual_kubelet_cmd.Base.Outcome.{Outcome, ok, err, panic}
use virtual_kubelet_cmd.Errors.{Error, plain}

-- The entry `k=v` of String.
abbrev pub entry : String → String → String
entry k v = k <> "=" <> v

-- String: the loop, with the text so far.
unfoldable pub string_from : String → Dict String String → String
string_from s [] = s
string_from s ((k, v) ∷ mv) =
    if s == "" then string_from (entry k v) mv else string_from (s <> ", " <> entry k v) mv

-- A map that is not made reads as empty, and a write to it panics.
abbrev pub entries : Option (Dict String String) → Dict String String
entries none = []
entries (some mv) = mv

abbrev pub write :
    String → String → Option (Dict String String) → Outcome Error (Option (Dict String String))
write k v none = panic
write k v (some mv) = ok (some (insert k v mv))

unfoldable pub set_pair :
    String × String → Option (Dict String String) → Outcome Error (Option (Dict String String))
set_pair (k, v) mv =
    if is_some (find k (entries mv)) then err (plain ("duplicate key: " <> k)) else write k v mv

unfoldable pub set_split :
    String
    → Option (String × String)
    → Option (Dict String String)
    → Outcome Error (Option (Dict String String))
unfolding set_pair
set_split s none mv = err (plain ("invalid format, must be `key=value`: " <> s))
set_split s (some kv) mv = set_pair kv mv

-- Set
unfoldable pub set_flag :
    String → Option (Dict String String) → Outcome Error (Option (Dict String String))
unfolding set_split
set_flag s mv = set_split s (split_once s) mv

-- The first use of the flag on a map that was never made panics, unless the text holds no "=".
pub set_flag_unmade :
    (s : String)
    → set_flag s none ≡ (
        if is_some (split_once s)
        then panic
        else err (plain ("invalid format, must be `key=value`: " <> s)))
unfolding set_flag set_split set_pair find
set_flag_unmade s = from (split_once s)
  where
    from :
        (o : Option (String × String))
        → set_split s o none ≡ (
            if is_some o then panic else err (plain ("invalid format, must be `key=value`: " <> s)))
    from none = refl
    from (some (k, v)) = refl
