-- ===== src/Base/Dict.antt =====
-- A Go map as an association list. A read of a missing key is `none`; `find_or` is the read that
-- gives the zero value; the order of the list stands for the order of a `range` over the map.
use mathlib.Core.Path.{◌≡◌, refl, ap}
use mathlib.Core.Bool.{Bool, true, false}
use mathlib.Core.List.{List, [], ◌∷◌, ◌++◌}
use mathlib.Core.Option.{Option, none, some}
use native.Mathlib.Omega.{arith}
use virtual_kubelet_cmd.Base.Eq.{Equality, ◌==◌, eq_refl}
use virtual_kubelet_cmd.Base.Tests.{if◌then◌else◌}

abbrev pub Dict {ℓ κ} : Type ℓ → Type κ → Type (ℓ ⊔ κ)
Dict K V = List (K × V)

abbrev pub or_zero {κ} : {V : Type κ} → V → Option V → V
or_zero d none = d
or_zero d (some v) = v

module _ {ℓ κ} {K : Type ℓ} {V : Type κ} ⦃e : Equality K⦄ where
  unfoldable pub find : K → Dict K V → Option V
  find k [] = none
  find k ((j, v) ∷ m) = if j == k then some v else find k m

  -- `m[k] = v`
  unfoldable pub insert : K → V → Dict K V → Dict K V
  insert k v [] = (k, v) ∷ []
  insert k v ((j, w) ∷ m) = if j == k then (k, v) ∷ m else (j, w) ∷ insert k v m

  -- `delete(m, k)`
  unfoldable pub erase : K → Dict K V → Dict K V
  erase k [] = []
  erase k ((j, w) ∷ m) = if j == k then erase k m else (j, w) ∷ erase k m

  -- `m[k]`, with the zero value of the element type.
  abbrev pub find_or : V → K → Dict K V → V
  find_or d k m = or_zero d (find k m)

  -- A read after a write.
  pub find-insert :
      (k j : K) (v : V) (m : Dict K V)
      → find j (insert k v m) ≡ (if k == j then some v else find j m)
  unfolding find insert
  find-insert k j v [] = refl
  find-insert k j v ((i, w) ∷ m) =
      ground (arith, e.same_iff k j, e.same_iff i k, e.same_iff i j, find-insert k j v m)

  pub find-insert_self : (k : K) (v : V) (m : Dict K V) → find k (insert k v m) ≡ some v
  find-insert_self k v m = simp (find-insert, eq_refl)

  -- A read after a delete.
  pub find-erase :
      (k j : K) (m : Dict K V) → find j (erase k m) ≡ (if k == j then none else find j m)
  unfolding find erase
  find-erase k j [] = ground arith
  find-erase k j ((i, w) ∷ m) =
      ground (arith, e.same_iff k j, e.same_iff i k, e.same_iff i j, find-erase k j m)

  pub find-erase_self : (k : K) (m : Dict K V) → find k (erase k m) ≡ none
  find-erase_self k m = simp (find-erase, eq_refl)

  -- The later of two writes counts.
  pub insert-insert : (k : K) (v w : V) (m : Dict K V) → insert k v (insert k w m) ≡ insert k v m
  unfolding insert
  insert-insert k v w [] = ground (arith, e.same_iff k k)
  insert-insert k v w ((j, u) ∷ m) =
      ground (arith, e.same_iff j k, e.same_iff k k, insert-insert k v w m)

  -- A key that is not found is not the first one, and is not found behind it.
  pub find-cons_none :
      (k j : K) (v : V) (m : Dict K V)
      → find k ((j, v) ∷ m) ≡ none
      → ((j == k) ≡ false) × (find k m ≡ none)
  unfolding find
  find-cons_none k j v m h = behind (j == k) h
    where
      behind :
          (b : Bool) {o : Option V} → (if b then some v else o) ≡ none → (b ≡ false) × (o ≡ none)
      behind false h = (refl, h)
      behind true h = cc

  -- A write of a key that is not there appends it.
  pub insert_new :
      (k : K) (v : V) (m : Dict K V) → find k m ≡ none → insert k v m ≡ m ++ (k, v) ∷ []
  unfolding insert
  insert_new k v [] n = refl
  insert_new k v ((j, w) ∷ m) n =
      let r = find-cons_none k j w m n in
      rw (insert, r.0) (ap (λ (t : Dict K V). (j, w) ∷ t) (insert_new k v m r.1))
