-- ===== src/Base/Text.antt =====
-- Texts: joins, prefixes and suffixes, by recursion on the characters.
use Prim.Native.Char.{Char, code}
use Prim.Native.Nat.{ℕ, compare, Ordering}
use Prim.Native.String.{String}
use Prim.Native.String
use Prim.Native.String.append
use mathlib.Core.Path.{◌≡◌, ◌∙◌, refl, ap}
use virtual_kubelet_cmd.Base.Tests.{if◌then◌else◌, Bool-cases}
use mathlib.Core.Logic.{inl, inr}
use mathlib.Core.Bool.{Bool, true, false}
use mathlib.Core.Option.{Option, none, some}
use text.Mathlib.Text.{find?}
use text.Mathlib.TextLemmas.{append_assoc}
use mathlib.Core.List.{List, [], ◌∷◌}

-- Go's `+` on strings.
infixr 65 ◌<>◌
abbrev pub ◌<>◌ : String → String → String
s <> t = String.◌++◌ s t

pub nil-append : (t : String) → "" <> t ≡ t
nil-append t = append.nil t

pub cons-append : (c : Char) (s t : String) → (String.◌∷◌ c s) <> t ≡ String.◌∷◌ c (s <> t)
cons-append c s t = append.cons c s t

abbrev same_code : ℕ → ℕ → Bool
same_code a b = elim (compare a b) [ Ordering.eq ↦ true | _ ↦ false ]

-- The character codes of a text.
abbrev pub codes : String → List ℕ
codes String.[] = []
codes (String.◌∷◌ c s) = code c ∷ codes s

-- strings.Join(parts, sep).
unfoldable pub join : String → List String → String
join sep [] = ""
join sep (s ∷ []) = s
join sep (s ∷ t ∷ rest) = s <> sep <> join sep (t ∷ rest)

-- strings.SplitN(s, "=", 2): the parts before and after the first "=", if there is one.
unfoldable pub split_once : String → Option (String × String)
split_once String.[] = none
split_once (String.◌∷◌ c s) = elim (same_code (code c) b'=') [
  | true ↦ some ("", s)
  | false ↦ elim (split_once s) [ none ↦ none | some (k, v) ↦ some (String.◌∷◌ c k, v) ]
]

-- strings.Contains(s, part).
abbrev pub contains : String → String → Bool
contains s part = elim (find? s part) [ none ↦ false | some i ↦ true ]

-- A text without "=".
abbrev pub equals_free : String → Bool
equals_free String.[] = true
equals_free (String.◌∷◌ c s) = if same_code (code c) b'=' then false else equals_free s

abbrev equals_sign : Char
equals_sign = "="

equals_cons : (s : String) → "=" <> s ≡ String.◌∷◌ equals_sign s
equals_cons s = cons-append equals_sign "" s ∙ ap (String.◌∷◌ equals_sign) (nil-append s)

none_there : (b x : Bool) → (if b then false else x) ≡ true → (b ≡ false) × (x ≡ true)
none_there false x h = (refl, h)
none_there true x h = cc

-- A text without "=" and what follows the sign are the two parts of the split.
pub split_once-append :
    (k v : String) → equals_free k ≡ true → split_once (k <> "=" <> v) ≡ some (k, v)
unfolding split_once
split_once-append String.[] v f = rw (nil-append ("=" <> v), equals_cons v) refl
split_once-append (String.◌∷◌ c k) v f =
    let r = none_there (same_code (code c) b'=') (equals_free k) f in
    rw (cons-append c k ("=" <> v), split_once, r.0, split_once-append k v r.1) refl

-- A text with a "=" is split.
pub split_some :
    (s : String) → equals_free s ≡ false → (kv : String × String) × (split_once s ≡ some kv)
unfolding split_once
split_some String.[] e = cc
split_some (String.◌∷◌ c s) e = elim (Bool-cases (same_code (code c) b'=')) [
  | inl f ↦ rw (f, split_once) (_, refl)
  | inr f ↦ let (kv, g) = split_some s (rw f at e) in rw (f, g, split_once) (_, refl)
]

pub join_nil : (sep : String) → join sep [] ≡ ""
unfolding join
join_nil sep = refl

pub join_one : (sep s : String) → join sep (s ∷ []) ≡ s
unfolding join
join_one sep s = refl

-- A join whose first two parts are put together first.
pub join_two :
    (sep s t : String) (rest : List String)
    → join sep (s ∷ t ∷ rest) ≡ join sep ((s <> sep <> t) ∷ rest)
unfolding join
join_two sep s t [] = refl
join_two sep s t (u ∷ rest) = simp append_assoc
