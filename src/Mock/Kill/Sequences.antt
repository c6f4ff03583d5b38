-- ===== src/Mock/Kill/Sequences.antt =====
-- What the goroutine of a container sends on the error channel of deletePod.
use virtual_kubelet_cmd.Base.{
  String, ◌≤◌, suc, Bool, true, false, none, some, List, [], ◌∷◌, ◌++◌, ℤ, ◌≡◌, refl, ap, inl, inr,
  arith, length, All, Option-cases, Bool-cases, if◌then◌else◌, ◌==◌, ◌||◌, string_equality,
  All-append,
}
use virtual_kubelet_cmd.Disk.{Disk}
use virtual_kubelet_cmd.Errors.{external}
use virtual_kubelet_cmd.Host.{Host}
use virtual_kubelet_cmd.Kube.{ContainerStatus, Pod}
use virtual_kubelet_cmd.Mock.Process.{get_parent_pid, get_user_processes}
use virtual_kubelet_cmd.Mock.Kill.{
  Act, Signal, signal, sigstop, sigkill, remove, report, failure, Signals, signal_process,
  signal_all, delete_container, reports,
}
use virtual_kubelet_cmd.Mock.Kill.Sends.{Sequence, EndsAtNil, pending}

-- Not the nil that ends a goroutine.
abbrev pub IsMidway : Act → Type 0
IsMidway (report none) = ⊥
IsMidway _ = Unit

midway-EndsAtNil :
    (xs ys : List Act) → All IsMidway xs → EndsAtNil (reports ys) → EndsAtNil (reports (xs ++ ys))
midway-EndsAtNil [] ys a q = q
midway-EndsAtNil (signal sig pid ∷ xs) ys a q = midway-EndsAtNil xs ys a.1 q
midway-EndsAtNil (remove dir ∷ xs) ys a q = midway-EndsAtNil xs ys a.1 q
midway-EndsAtNil (report none ∷ xs) ys a q = absurd a.0
midway-EndsAtNil (report (some e) ∷ xs) ys a q = tt

module _ (h : Host) (os : Signals) where
  delivered-IsMidway :
      (b : Bool) (sig : Signal)
      → All IsMidway (if b then [] else report (some (external (failure sig))) ∷ [])
  delivered-IsMidway true sig = tt
  delivered-IsMidway false sig = (tt, tt)

  hit-IsMidway :
      (b : Bool) (sig : Signal) (pid : ℤ)
      → All IsMidway (
          if b
          then signal sig pid
            ∷ (if os.delivers sig pid then [] else report (some (external (failure sig))) ∷ [])
          else [])
  hit-IsMidway true sig pid = (tt, delivered-IsMidway (os.delivers sig pid) sig)
  hit-IsMidway false sig pid = tt

  signal_process-IsMidway :
      (sig : Signal) (pgid : String) (pid : ℤ) → All IsMidway (signal_process h os sig pgid pid)
  unfolding signal_process
  signal_process-IsMidway sig pgid pid = elim (Bool-cases (os.find_process sig pid)) [
    | inr f ↦ rw (f, signal_process) tt
    | inl f ↦ elim (Option-cases (h.getpgid pid)) [
      | inl e ↦ rw (f, e, signal_process) (tt, tt)
      | inr (group, e) ↦ elim (Option-cases (get_parent_pid h pid)) [
        | inl e' ↦ rw (f, e, e', signal_process) (tt, tt)
        | inr (ppid, e') ↦ elim (Option-cases (h.getpgid ppid)) [
          | inl e'' ↦ rw (f, e, e', e'', signal_process) (tt, tt)
          | inr (parent_group, e'') ↦
              rw (f, e, e', e'', signal_process)
                (hit-IsMidway (h.itoa group == pgid || h.itoa parent_group == pgid) sig pid)
        ]
      ]
    ]
  ]

module _ (os : Signals) where
  pub signal_all-IsMidway :
      (st : ContainerStatus) (sig : Signal) (pids : List ℤ)
      → All IsMidway (signal_all os st sig pids)
  unfolding signal_all
  signal_all-IsMidway st sig [] = tt
  signal_all-IsMidway st sig (pid ∷ pids) =
      let h = os.seen st sig pid in
      All-append IsMidway (signal_process h os sig st.container_id pid) (signal_all os st sig pids)
        (signal_process-IsMidway h os sig st.container_id pid) (signal_all-IsMidway st sig pids)

module _ (h : Host) (os : Signals) (d : Disk) (p : Pod) where
  abbrev pub sequence_of : ContainerStatus → Sequence
  sequence_of st = reports (delete_container h os d p st)

  last-EndsAtNil :
      (b : Bool)
      → EndsAtNil (
          reports (
            if b
            then report none ∷ []
            else report (some (external "failed to delete pod directory")) ∷ []))
  last-EndsAtNil true = refl
  last-EndsAtNil false = tt

  pub sequence_of-EndsAtNil : (st : ContainerStatus) → EndsAtNil (sequence_of st)
  unfolding delete_container
  sequence_of-EndsAtNil st = elim (Option-cases (get_user_processes (os.listing st))) [
    | inl e ↦ rw (e, delete_container) tt
    | inr (pids, e) ↦
        let dir = h.path_join (h.getenv "HOME" ∷ p.namespace ∷ p.name ∷ []) in
        let last = last-EndsAtNil (d.remove_all dir) in
        let kill =
          midway-EndsAtNil (signal_all os st sigkill pids) (remove dir ∷ _)
            (signal_all-IsMidway os st sigkill pids) last in
        rw (e, delete_container)
          (midway-EndsAtNil (signal_all os st sigstop pids) _
            (signal_all-IsMidway os st sigstop pids) kill)
  ]

  pub pending_more :
      (g : Sequence) (gs : List Sequence) (sts : List ContainerStatus)
      → 1 ≤ length g
      → pending gs ≡ length sts
      → pending (g ∷ gs) ≡ suc (length sts)
  pending_more [] gs sts n e = ground (arith, n)
  pending_more (x ∷ g) gs sts n e = ap suc e
