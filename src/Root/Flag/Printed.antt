-- ===== src/Root/Flag/Printed.antt =====
-- What the flag reads of what it prints.
use text.Mathlib.TextLemmas.{append-eq-nil_iff}
use mathlib.Core.List.{append_assoc, append-nil}
use virtual_kubelet_cmd.Base.{
  ◌≢◌, ◌<>◌, true, false, join, join_nil, join_one, join_two, String, Option, none, some, List, [],
  ◌∷◌, ◌++◌, ◌==◌, ◌≡◌, refl, sym, ap, ◌∙◌, subst, string_equality, nat_equality, arith, inl, inr,
  Bool-cases, map, equals_free, split_once-append, ◌⊎◌, eq_refl,
}
use virtual_kubelet_cmd.Base.Dict.{Dict, find, insert, find-insert, find-cons_none, insert_new}
use virtual_kubelet_cmd.Base.Outcome.{Outcome, ok, ◌>>=◌}
use virtual_kubelet_cmd.Errors.{Error}
use virtual_kubelet_cmd.Root.Flag.{string_from, entry, set_pair, set_split, set_flag}

-- The texts one after the other on the flag.
abbrev pub set_all :
    List String → Option (Dict String String) → Outcome Error (Option (Dict String String))
set_all [] mv = ok mv
set_all (s ∷ ss) mv = set_flag s mv >>= set_all ss

abbrev entry_of : String × String → String
entry_of (k, v) = entry k v

abbrev pub entries_of : Dict String String → List String
entries_of mv = map entry_of mv

-- The keys are different from each other and hold no "=", as in a map that the flag has set.
abbrev pub HasKeys : Dict String String → Type 0
HasKeys [] = Unit
HasKeys ((k, v) ∷ mv) = (equals_free k ≡ true) × (find k mv ≡ none) × HasKeys mv

set_flag-entry :
    (k v : String) (mv : Dict String String)
    → equals_free k ≡ true
    → find k mv ≡ none
    → set_flag (entry k v) (some mv) ≡ ok (some (insert k v mv))
unfolding set_flag set_split set_pair
set_flag-entry k v mv f n = rw (split_once-append k v f, set_split, set_pair, n) refl

-- No key is in both maps.
abbrev AreApart : Dict String String → Dict String String → Type 0
AreApart done mv = (j : String) → (find j mv ≡ none) ⊎ (find j done ≡ none)

head_apart :
    (k v : String) (done mv : Dict String String)
    → (find k ((k, v) ∷ mv) ≡ none) ⊎ (find k done ≡ none)
    → find k done ≡ none
head_apart k v done mv (inl h) =
    let r = (find-cons_none k k v mv h).0 in ground (arith, r, eq_refl k)
head_apart k v done mv (inr h) = h

next_apart :
    (k v : String) (done mv : Dict String String)
    → find k mv ≡ none
    → AreApart done ((k, v) ∷ mv)
    → AreApart (insert k v done) mv
next_apart k v done mv n a j = elim (Bool-cases (k == j)) [
  | inl e ↦ inl (subst (λ x. find x mv ≡ none) ((string_equality.same_iff k j).0 e) n)
  | inr e ↦ (elim (a j) [
    | inl h ↦ inl (find-cons_none j k v mv h).1
    | inr h ↦ inr (find-insert k j v done ∙ rw e h)
  ])
]

set_all-entries :
    (mv done : Dict String String)
    → HasKeys mv
    → AreApart done mv
    → set_all (entries_of mv) (some done) ≡ ok (some (done ++ mv))
set_all-entries [] done h a = ap (λ m. ok (some m)) (sym (append-nil done))
set_all-entries ((k, v) ∷ mv) done (f, n, h) a =
    let new = head_apart k v done mv (a k) in
    rw
      (
        set_flag-entry k v done f new,
        set_all-entries mv (insert k v done) h (next_apart k v done mv n a),
        insert_new k v done new,
        append_assoc done ((k, v) ∷ []) mv,
      )
      refl

entry_not_empty : (k v : String) → entry k v ≢ ""
entry_not_empty k v e =
    let sign = (append-eq-nil_iff.0 (append-eq-nil_iff.0 e).1).0 in
    absurd (ground (arith, (string_equality.same_iff "=" "").1 sign))

not_empty : (s : String) → s ≢ "" → (s == "") ≡ false
not_empty s n = elim (Bool-cases (s == "")) [
  | inl e ↦ absurd (n ((string_equality.same_iff s "").0 e))
  | inr e ↦ e
]

string_from-join :
    (s : String) (mv : Dict String String)
    → s ≢ ""
    → string_from s mv ≡ join ", " (s ∷ entries_of mv)
unfolding string_from
string_from-join s [] n = sym (join_one ", " s)
string_from-join s ((k, v) ∷ mv) n =
    rw (string_from, not_empty s n, join_two ", " s (entry k v) (entries_of mv))
      (string_from-join (s <> ", " <> entry k v) mv (λ e. n (append-eq-nil_iff.0 e).0))

print-join : (mv : Dict String String) → HasKeys mv → string_from "" mv ≡ join ", " (entries_of mv)
unfolding string_from
print-join [] h = sym (join_nil ", ")
print-join ((k, v) ∷ mv) h = string_from-join (entry k v) mv (entry_not_empty k v)

-- String prints the entries `k=v` of a map joined by ", ", and a flag on a made and empty map that
-- reads these entries in order gives the map, when its keys are different from each other and hold
-- no "=".
pub set_all-print :
    (mv : Dict String String)
    → HasKeys mv
    → (string_from "" mv ≡ join ", " (entries_of mv))
      × (set_all (entries_of mv) (some []) ≡ ok (some mv))
unfolding find
set_all-print mv h = (print-join mv h, set_all-entries mv [] h (λ j. inr refl))
