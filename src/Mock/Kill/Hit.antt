-- ===== src/Mock/Kill/Hit.antt =====
-- The processes that get a signal where the loop over the processes reports no error.
use mathlib.Core.List.{Mem, mem-cons_self, mem-append_left, mem-append_right}
use virtual_kubelet_cmd.Base.{
  Bool, true, false, ◌||◌, none, some, List, [], ◌∷◌, ◌++◌, ℤ, ◌==◌, ◌≡◌, refl, string_equality,
  if◌then◌else◌, All, Bool-cases, Option-cases, inl, inr,
}
use virtual_kubelet_cmd.Errors.{external}
use virtual_kubelet_cmd.Host.{Host}
use virtual_kubelet_cmd.Kube.{ContainerStatus}
use virtual_kubelet_cmd.Mock.Process.{get_parent_pid}
use virtual_kubelet_cmd.Mock.Kill.{
  Act, Signal, signal, remove, report, failure, Signals, signal_process, signal_all, reports,
}
use virtual_kubelet_cmd.Mock.Kill.Sequences.{IsMidway}
use virtual_kubelet_cmd.Mock.Kill.Owned.{is_process_of}

-- Acts whose only error is what comes behind them have no error.
pub silent_before :
    (xs ys : List Act)
    → All IsMidway xs
    → reports (xs ++ ys) ≡ none ∷ []
    → (reports xs ≡ []) × (reports ys ≡ none ∷ [])
silent_before [] ys a e = (refl, e)
silent_before (signal sig pid ∷ xs) ys a e = silent_before xs ys a.1 e
silent_before (remove dir ∷ xs) ys a e = silent_before xs ys a.1 e
silent_before (report none ∷ xs) ys a e = absurd a.0
silent_before (report (some x) ∷ xs) ys a e = cc

silent_parts : (xs ys : List Act) → reports (xs ++ ys) ≡ [] → (reports xs ≡ []) × (reports ys ≡ [])
silent_parts [] ys e = (refl, e)
silent_parts (signal sig pid ∷ xs) ys e = silent_parts xs ys e
silent_parts (remove dir ∷ xs) ys e = silent_parts xs ys e
silent_parts (report x ∷ xs) ys e = cc

not_both : {b : Bool} → b ≡ true → b ≡ false → ⊥
not_both e f = cc

module _ (h : Host) (os : Signals) where
  abbrev IsHit : Signal → ℤ → List Act → Type 0
  IsHit sig pid acts = reports acts ≡ [] → (os.delivers sig pid ≡ true) × Mem (signal sig pid) acts

  delivered-IsHit :
      (b : Bool) (sig : Signal) (pid : ℤ)
      → os.delivers sig pid ≡ b
      → IsHit sig pid
          (signal sig pid ∷ (if b then [] else report (some (external (failure sig))) ∷ []))
  delivered-IsHit true sig pid e q = (e, mem-cons_self)
  delivered-IsHit false sig pid e q = cc

  -- A process of the container gets the signal, where nothing is reported.
  signal_process-IsHit :
      (sig : Signal) (st : ContainerStatus) (pid : ℤ)
      → os.find_process sig pid ≡ true
      → is_process_of h st pid ≡ true
      → IsHit sig pid (signal_process h os sig st.container_id pid)
  unfolding signal_process
  signal_process-IsHit sig st pid f own = elim (Option-cases (h.getpgid pid)) [
    | inl b ↦ rw (f, b) (λ q. cc)
    | inr (g, b) ↦ elim (Option-cases (get_parent_pid h pid)) [
      | inl c ↦ rw (f, b, c) (λ q. cc)
      | inr (pp, c) ↦ elim (Option-cases (h.getpgid pp)) [
        | inl d ↦ rw (f, b, c, d) (λ q. cc)
        | inr (pg, d) ↦
            elim (Bool-cases (h.itoa g == st.container_id || h.itoa pg == st.container_id)) [
              | inr e ↦ absurd (not_both own (rw (b, c, d) e))
              | inl e ↦ rw (f, b, c, d, e) (delivered-IsHit (os.delivers sig pid) sig pid refl)
            ]
      ]
    ]
  ]

module _ (os : Signals) where
  -- Each process of the container among these gets the signal: each that is found and has the group
  -- of the container, or a parent that has it, when the goroutine for it looks.
  abbrev pub AreHit : Signal → ContainerStatus → List Act → List ℤ → Type 0
  AreHit sig st acts pids =
      All
        (λ pid.
          os.find_process sig pid ≡ true
          → is_process_of (os.seen st sig pid) st pid ≡ true
          → (os.delivers sig pid ≡ true) × Mem (signal sig pid) acts)
        pids

  AreHit-more :
      (sig : Signal) (st : ContainerStatus) (xs ys : List Act) (pids : List ℤ)
      → AreHit sig st ys pids
      → AreHit sig st (xs ++ ys) pids
  AreHit-more sig st xs ys [] a = tt
  AreHit-more sig st xs ys (pid ∷ pids) (hit, a) =
      (λ f own. ((hit f own).0, mem-append_right xs (hit f own).1), AreHit-more sig st xs ys pids a)

  pub signal_all-AreHit :
      (sig : Signal) (st : ContainerStatus) (pids : List ℤ)
      → reports (signal_all os st sig pids) ≡ []
      → AreHit sig st (signal_all os st sig pids) pids
  unfolding signal_all
  signal_all-AreHit sig st [] e = tt
  signal_all-AreHit sig st (pid ∷ pids) e =
      let h = os.seen st sig pid in
      let here = signal_process h os sig st.container_id pid in
      let rest = signal_all os st sig pids in
      let (q, r) = silent_parts here rest e in
      (
        λ f own.
            let (done, sent) = signal_process-IsHit h os sig st pid f own q in
            (done, mem-append_left rest sent),
        AreHit-more sig st here rest pids (signal_all-AreHit sig st pids r),
      )
