-- ===== src/Mock/Command/Order.antt =====
-- The order in which the goroutines of runScriptParallel finish: what does not depend on it.
use mathlib.Core.List.Permᴰ
use mathlib.Core.List.{Permᴰ}
use virtual_kubelet_cmd.Base.{
  ℕ, ◌+◌, String, string_equality, Bool, Option, none, some, List, ◌∷◌, ◌≡◌, refl, ◌∙◌, arith,
  if◌then◌else◌, count, filter_map,
}
use virtual_kubelet_cmd.Base.Dict.{Dict}
use virtual_kubelet_cmd.Base.Outcome.{Outcome, ok, err, panic, ◌>>=◌}
use virtual_kubelet_cmd.Disk.{Disk}
use virtual_kubelet_cmd.Errors.{Error}
use virtual_kubelet_cmd.Host.{Host}
use virtual_kubelet_cmd.Kube.{Time, Container, Pod}
use virtual_kubelet_cmd.Mock.Command.Script.{Shell}
use virtual_kubelet_cmd.Mock.Command.Parallel.{Sent, start_container, run_script_parallel}

module _ {A B : Type 0} (q : B → Bool) (f : A → Option B) where
  -- What one element adds to the count.
  abbrev tally : Option B → ℕ
  tally none = 0
  tally (some b) = if q b then 1 else 0

  count-filter_map-cons :
      (x : A) (xs : List A)
      → count q (filter_map f (x ∷ xs)) ≡ tally (f x) + count q (filter_map f xs)
  count-filter_map-cons x xs = ground arith

  -- A count does not see the order of the elements.
  pub count-filter_map-perm :
      {xs ys : List A} → Permᴰ xs ys → count q (filter_map f xs) ≡ count q (filter_map f ys)
  count-filter_map-perm Permᴰ.nil = refl
  count-filter_map-perm (Permᴰ.cons {a = a} {b = b} {l₁ = xs} {l₂ = ys} e r) =
      ground
        (arith, count-filter_map-cons a xs, count-filter_map-cons b ys, count-filter_map-perm r)
  count-filter_map-perm (Permᴰ.swap {a = a} {b = b} {a' = a'} {b' = b'} {l = l} e d) = ground (
    arith,
    count-filter_map-cons a (b ∷ l),
    count-filter_map-cons b l,
    count-filter_map-cons a' (b' ∷ l),
    count-filter_map-cons b' l,
  )
  count-filter_map-perm (Permᴰ.trans r s) = count-filter_map-perm r ∙ count-filter_map-perm s

module _ (h : Host) (d : Disk) (sh : Shell) (p : Pod) (start : Time)
    (volume_map : Dict String String) where
  abbrev pub run_all : List Container → Outcome Error (List Sent)
  run_all = run_script_parallel h d sh p start volume_map

  -- A run that ends well splits off what its first goroutine sent.
  run_cons :
      (c : Container) (cs : List Container) (sent : List Sent)
      → run_all (c ∷ cs) ≡ ok sent
      → (s : Sent) × (rest : List Sent) × (start_container h d sh p start volume_map c ≡ ok s)
        × (run_all cs ≡ ok rest)
        × (sent ≡ s ∷ rest)
  unfolding run_script_parallel
  run_cons c cs sent e =
      by_parts (start_container h d sh p start volume_map c) (run_all cs) refl refl e
    where
      by_parts :
          (x : Outcome Error Sent) (y : Outcome Error (List Sent))
          → start_container h d sh p start volume_map c ≡ x
          → run_all cs ≡ y
          → (x >>= λ s. y >>= λ rest. ok (s ∷ rest)) ≡ ok sent
          → (s : Sent) × (rest : List Sent) × (start_container h d sh p start volume_map c ≡ ok s)
            × (run_all cs ≡ ok rest)
            × (sent ≡ s ∷ rest)
      by_parts (ok s) (ok rest) f g k = (s, rest, f, g, ground arith)
      by_parts (ok s) (err x) f g k = cc
      by_parts (ok s) panic f g k = cc
      by_parts (err x) y f g k = cc
      by_parts panic y f g k = cc

  -- When the goroutines of a pod all end without a panic in one order, they do in every other
  -- order, and send the same values in another order.
  pub run-perm :
      {o o' : List Container} (sent : List Sent)
      → Permᴰ o o'
      → run_all o ≡ ok sent
      → (sent' : List Sent) × (run_all o' ≡ ok sent') × Permᴰ sent sent'
  unfolding run_script_parallel
  run-perm sent Permᴰ.nil e = (sent, e, Permᴰ.refl sent)
  run-perm sent (Permᴰ.cons {a = a} {b = b} {l₁ = xs} {l₂ = ys} same r) e =
      let (s, rest, f, g, split) = run_cons a xs sent e in
      let (rest', g', perm) = run-perm rest r g in
      (s ∷ rest', rw (← same, f, g') refl, rw split (Permᴰ.cons refl perm))
  run-perm sent (Permᴰ.swap {a = a} {b = b} {a' = a'} {b' = b'} {l = l} same same') e =
      let (s, rest, f, g, split) = run_cons a (b ∷ l) sent e in
      let (s', rest', f', g', split') = run_cons b l rest g in
      (
        s' ∷ s ∷ rest',
        rw (← same', ← same, f, f', g') refl,
        rw (split, split') (Permᴰ.swap refl refl),
      )
  run-perm sent (Permᴰ.trans r s) e =
      let (mid, f, perm) = run-perm sent r e in
      let (last, g, perm') = run-perm mid s f in (last, g, Permᴰ.trans perm perm')
