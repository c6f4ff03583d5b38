-- ===== src/Mock/Meters/Groups.antt =====
-- The process groups of a pod.
use virtual_kubelet_cmd.Base.{
  some_injective, String, Bool, true, false, ◌||◌, none, some, List, [], ◌∷◌, ℤ, ◌==◌, ◌≡◌, refl,
  All, subst, sym, ap, ◌∙◌, inl, inr, Bool-cases, Option-cases, int_equality, string_equality,
  arith,
}
use virtual_kubelet_cmd.Base.Dict.{Dict, find, insert, find-insert, find-insert_self}
use virtual_kubelet_cmd.Host.{Host}
use virtual_kubelet_cmd.Kube.{Container, Pod}
use virtual_kubelet_cmd.Mock.Meters.{
  read_pgid_from_file, append_unique, pgid_file, pgids_from, get_pgids_from_pod,
}

abbrev pub holds : ℤ → List ℤ → Bool
holds x [] = false
holds x (y ∷ ys) = y == x || holds x ys

abbrev pub Distinct : List ℤ → Type 0
Distinct [] = Unit
Distinct (x ∷ xs) = (holds x xs ≡ false) × Distinct xs

holds-append_unique :
    (x v : ℤ) (xs : List ℤ) → holds x (append_unique xs v) ≡ (holds x xs || v == x)
unfolding append_unique
holds-append_unique x v [] = ground arith
holds-append_unique x v (y ∷ ys) = ground (
  arith,
  holds-append_unique x v ys,
  int_equality.same_iff y v,
  int_equality.same_iff y x,
  int_equality.same_iff v x,
)

append_unique-Distinct : (v : ℤ) (xs : List ℤ) → Distinct xs → Distinct (append_unique xs v)
unfolding append_unique
append_unique-Distinct v [] d = (refl, tt)
append_unique-Distinct v (y ∷ ys) (h, d) = elim (Bool-cases (y == v)) [
  | inl e ↦ rw (append_unique, e) (h, d)
  | inr e ↦
      rw (append_unique, e)
        (
          ground (
            arith,
            holds-append_unique y v ys,
            int_equality.same_iff y v,
            int_equality.same_iff v y,
          ),
          append_unique-Distinct v ys d,
        )
]

module _ (h : Host) (p : Pod) where
  -- The group in the container's file is among the groups, and the map has it for the container.
  abbrev pub IsKnown : List ℤ → Dict String ℤ → Container → Type 0
  IsKnown pgids pgid_map c =
      (g : ℤ) × (read_pgid_from_file h (pgid_file h p c) ≡ some g)
      × (holds g pgids ≡ true)
      × (find c.name pgid_map ≡ some g)

  abbrev file_of : String → String
  file_of name =
      h.path_join (h.getenv "HOME" ∷ p.namespace ∷ p.name ∷ "containers" ∷ name ∷ "pgid" ∷ [])

  -- A group that is held stays held, and what the map has of a container stays.
  abbrev Kept : Container → ℤ → List Container → List ℤ → Dict String ℤ → Type 0
  Kept c g cs pgids pgid_map =
      (gs : List ℤ) (m : Dict String ℤ)
      → pgids_from h p cs pgids pgid_map ≡ some (gs, m)
      → read_pgid_from_file h (pgid_file h p c) ≡ some g
      → holds g pgids ≡ true
      → find c.name pgid_map ≡ some g
      → (holds g gs ≡ true) × (find c.name m ≡ some g)

  same_group :
      (c d : Container) (g k : ℤ)
      → read_pgid_from_file h (pgid_file h p c) ≡ some g
      → read_pgid_from_file h (pgid_file h p d) ≡ some k
      → d.name ≡ c.name
      → k ≡ g
  same_group c d g k e f q =
      let f' = subst (λ n. read_pgid_from_file h (file_of n) ≡ some k) q f in
      some_injective (sym f' ∙ e)

  pgids_from-none :
      (d : Container) (cs : List Container) (pgids : List ℤ) (pgid_map : Dict String ℤ)
      → read_pgid_from_file h (pgid_file h p d) ≡ none
      → pgids_from h p (d ∷ cs) pgids pgid_map ≡ none
  unfolding pgids_from
  pgids_from-none d cs pgids pgid_map f = rw (pgids_from, f) refl

  pgids_from-some :
      (d : Container) (cs : List Container) (pgids : List ℤ) (pgid_map : Dict String ℤ) (k : ℤ)
      → read_pgid_from_file h (pgid_file h p d) ≡ some k
      → pgids_from h p (d ∷ cs) pgids pgid_map
        ≡ pgids_from h p cs (append_unique pgids k) (insert d.name k pgid_map)
  unfolding pgids_from
  pgids_from-some d cs pgids pgid_map k f = rw (pgids_from, f) refl

  pgids_from-Kept :
      (c : Container) (g : ℤ) (cs : List Container) (pgids : List ℤ) (pgid_map : Dict String ℤ)
      → Kept c g cs pgids pgid_map
  unfolding pgids_from
  pgids_from-Kept c g [] pgids pgid_map gs m e r a b =
      subst (λ x. (holds g x.0 ≡ true) × (find c.name x.1 ≡ some g)) (some_injective e) (a, b)
  pgids_from-Kept c g (d ∷ cs) pgids pgid_map gs m e r a b =
      elim (Option-cases (read_pgid_from_file h (pgid_file h p d))) [
        | inl f ↦ let e' = sym (pgids_from-none d cs pgids pgid_map f) ∙ e in cc
        | inr (k, f) ↦
            pgids_from-Kept c g cs (append_unique pgids k) (insert d.name k pgid_map) gs m
              (sym (pgids_from-some d cs pgids pgid_map k f) ∙ e) r
              (ground (arith, holds-append_unique g k pgids, a))
              (elim (Bool-cases (d.name == c.name)) [
                | inl q ↦
                    find-insert d.name c.name k pgid_map
                    ∙ rw q (
                        ap some
                          (same_group c d g k r f ((string_equality.same_iff d.name c.name).0 q)))
                | inr q ↦ find-insert d.name c.name k pgid_map ∙ rw q b
              ])
      ]

  pgids_from-Known :
      (cs : List Container) (pgids : List ℤ) (pgid_map : Dict String ℤ) (gs : List ℤ)
      (m : Dict String ℤ)
      → pgids_from h p cs pgids pgid_map ≡ some (gs, m)
      → Distinct pgids
      → Distinct gs × All (IsKnown gs m) cs
  unfolding pgids_from
  pgids_from-Known [] pgids pgid_map gs m e d = (subst (λ x. Distinct x.0) (some_injective e) d, tt)
  pgids_from-Known (c ∷ cs) pgids pgid_map gs m e d =
      elim (Option-cases (read_pgid_from_file h (pgid_file h p c))) [
        | inl f ↦ let e' = sym (pgids_from-none c cs pgids pgid_map f) ∙ e in cc
        | inr (k, f) ↦
            let e' = sym (pgids_from-some c cs pgids pgid_map k f) ∙ e in
            let r =
              pgids_from-Known cs (append_unique pgids k) (insert c.name k pgid_map) gs m e'
                (append_unique-Distinct k pgids d) in
            let s =
              pgids_from-Kept c k cs (append_unique pgids k) (insert c.name k pgid_map) gs m e' f
                (ground (arith, holds-append_unique k k pgids, int_equality.same_iff k k))
                (find-insert_self c.name k pgid_map) in
            (r.0, ((k, f, s.0, s.1), r.1))
      ]

-- When getPgidsFromPod succeeds, its groups are distinct, and for each container of the pod the group
-- in its file is among them and is what the map has for its name.
pub get_pgids_from_pod-Known :
    (h : Host) (p : Pod) (pgids : List ℤ) (pgid_map : Dict String ℤ)
    → get_pgids_from_pod h p ≡ some (pgids, pgid_map)
    → Distinct pgids × All (IsKnown h p pgids pgid_map) p.containers
unfolding get_pgids_from_pod
get_pgids_from_pod-Known h p pgids pgid_map e =
    pgids_from-Known h p p.containers [] [] pgids pgid_map e tt
