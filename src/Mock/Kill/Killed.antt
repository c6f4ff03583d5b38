-- ===== src/Mock/Kill/Killed.antt =====
-- The processes that a deletePod without an error has killed, whatever the order of the sends.
use mathlib.Core.List.Permᴰ
use mathlib.Core.List.{Permᴰ, mem-append_left}
use virtual_kubelet_cmd.Base.{
  String, Bool, true, false, ◌≤◌, none, some, List, [], ◌∷◌, ◌++◌, ℤ, ◌≡◌, refl, sym, subst, ap,
  ◌∙◌, string_equality, if◌then◌else◌, arith, length, All, map, Option-cases, inl, inr,
}
use virtual_kubelet_cmd.Disk.{Disk}
use virtual_kubelet_cmd.Errors.{external}
use virtual_kubelet_cmd.Host.{Host}
use virtual_kubelet_cmd.Kube.{ContainerStatus, Pod}
use virtual_kubelet_cmd.Mock.Process.{get_user_processes}
use virtual_kubelet_cmd.Mock.Kill.{
  Act, Signal, sigstop, sigkill, remove, report, Signals, signal_all, delete_container, reports,
  read_errors,
}
use virtual_kubelet_cmd.Mock.Kill.Sequences.{
  signal_all-IsMidway, sequence_of, sequence_of-EndsAtNil,
}
use virtual_kubelet_cmd.Mock.Kill.Reads.{reports_once}
use virtual_kubelet_cmd.Mock.Kill.Sends.{Sequence, Interleaves, IsDone, read_errors_interleaved}
use virtual_kubelet_cmd.Mock.Kill.Channel.{AreOrders}
use virtual_kubelet_cmd.Mock.Kill.Channel.Returns.{orders-EndAtNil, orders_pending, length-perm}
use virtual_kubelet_cmd.Mock.Kill.Hit.{silent_before, AreHit, signal_all-AreHit}

nils-perm : {g g' : Sequence} → Permᴰ g g' → All (λ x. x ≡ none) g' → All (λ x. x ≡ none) g
nils-perm Permᴰ.nil a = tt
nils-perm (Permᴰ.cons e r) a = (e ∙ a.0, nils-perm r a.1)
nils-perm (Permᴰ.swap e d) a = (e ∙ a.1.0, (d ∙ a.0, a.1.1))
nils-perm (Permᴰ.trans r s) a = nils-perm r (nils-perm s a)

one_nil : (g : Sequence) → All (λ x. x ≡ none) g → length g ≡ 1 → g ≡ none ∷ []
one_nil [] a n = absurd (omega (arith, n))
one_nil (x ∷ []) a n = ap (λ y. y ∷ []) a.0
one_nil (x ∷ y ∷ g) a n = absurd (omega (arith, n))

done_nil : {g g' : Sequence} → Permᴰ g g' → 1 ≤ length g → IsDone g' → g ≡ none ∷ []
done_nil {g} r n (inl e) =
    absurd (let same = length-perm r in let zero = ap length e in omega (arith, same, n, zero))
done_nil {g} r n (inr e) =
    one_nil g (nils-perm r (subst (All (λ x. x ≡ none)) (sym e) (refl, tt)))
      (length-perm r ∙ ap length e)

module _ (h : Host) (os : Signals) (d : Disk) (p : Pod) where
  abbrev pod_dir : String
  pod_dir = h.path_join (h.getenv "HOME" ∷ p.namespace ∷ p.name ∷ [])

  -- The processes of the user are known; those seen in the container have got a signal to stop and,
  -- behind all of these, those seen in it then one to kill, all of which arrived; and the directory of
  -- the pod is removed.
  abbrev pub IsKilled : ContainerStatus → Type 0
  IsKilled st =
      (pids : List ℤ) × (stops : List Act) × (rest : List Act) × (get_user_processes (os.listing st)
        ≡ some pids)
      × (delete_container h os d p st ≡ stops ++ rest)
      × AreHit os sigstop st stops pids
      × AreHit os sigkill st rest pids
      × (d.remove_all pod_dir ≡ true)

  last_removed :
      (b : Bool)
      → reports (
          if b
          then report none ∷ []
          else report (some (external "failed to delete pod directory")) ∷ [])
        ≡ none ∷ []
      → b ≡ true
  last_removed true e = refl
  last_removed false e = cc

  AreHit-before :
      (sig : Signal) (st : ContainerStatus) (xs ys : List Act) (pids : List ℤ)
      → AreHit os sig st xs pids
      → AreHit os sig st (xs ++ ys) pids
  AreHit-before sig st xs ys [] a = tt
  AreHit-before sig st xs ys (pid ∷ pids) (hit, a) = (
    λ f own. ((hit f own).0, mem-append_left ys (hit f own).1),
    AreHit-before sig st xs ys pids a,
  )

  abbrev all_of : ContainerStatus → Signal → List ℤ → List Act
  all_of st sig pids = signal_all os st sig pids

  abbrev last_acts : Bool → List Act
  last_acts b =
      remove pod_dir
      ∷ (if b
          then report none ∷ []
          else report (some (external "failed to delete pod directory")) ∷ [])

  delete_container-some :
      (st : ContainerStatus) (pids : List ℤ)
      → get_user_processes (os.listing st) ≡ some pids
      → delete_container h os d p st
        ≡ all_of st sigstop pids ++ (all_of st sigkill pids ++ last_acts (d.remove_all pod_dir))
  unfolding delete_container
  delete_container-some st pids a = rw (a, delete_container) refl

  known-IsKilled :
      (st : ContainerStatus) (pids : List ℤ)
      → get_user_processes (os.listing st) ≡ some pids
      → sequence_of h os d p st ≡ none ∷ []
      → IsKilled st
  known-IsKilled st pids a e =
      let same = delete_container-some st pids a in
      let stops = all_of st sigstop pids in
      let kills = all_of st sigkill pids in
      let last = last_acts (d.remove_all pod_dir) in
      let (s, e1) =
        silent_before stops (kills ++ last) (signal_all-IsMidway os st sigstop pids)
          (sym (ap reports same) ∙ e) in
      let (k, e2) = silent_before kills last (signal_all-IsMidway os st sigkill pids) e1 in
      (
        pids,
        stops,
        kills ++ last,
        a,
        same,
        signal_all-AreHit os sigstop st pids s,
        AreHit-before sigkill st kills last pids (signal_all-AreHit os sigkill st pids k),
        last_removed (d.remove_all pod_dir) e2,
      )

  unknown_fails :
      (st : ContainerStatus)
      → get_user_processes (os.listing st) ≡ none
      → sequence_of h os d p st ≡ some (external "failed to get user processes") ∷ []
  unfolding delete_container
  unknown_fails st a = rw (a, delete_container) refl

  sequence_of-IsKilled : (st : ContainerStatus) → sequence_of h os d p st ≡ none ∷ [] → IsKilled st
  sequence_of-IsKilled st e = elim (Option-cases (get_user_processes (os.listing st))) [
    | inl a ↦ absurd (let fails = unknown_fails st a in cc)
    | inr (pids, a) ↦ known-IsKilled st pids a e
  ]

  -- The order in which the goroutines stand here is one of the orders.
  pub own-AreOrders :
      (sts : List ContainerStatus) → AreOrders h os d p sts (map (sequence_of h os d p) sts)
  own-AreOrders [] = tt
  own-AreOrders (st ∷ sts) =
      ((Permᴰ.refl (sequence_of h os d p st), sequence_of-EndsAtNil h os d p st), own-AreOrders sts)

  containers-IsKilled :
      (sts : List ContainerStatus) (gs : List Sequence)
      → AreOrders h os d p sts gs
      → All IsDone gs
      → All IsKilled sts
  containers-IsKilled [] [] o q = tt
  containers-IsKilled [] (g ∷ gs) o q = tt
  containers-IsKilled (st ∷ sts) [] o q = absurd o
  containers-IsKilled (st ∷ sts) (g ∷ gs) (o, os') (q, qs) = (
    sequence_of-IsKilled st (done_nil o.0 (reports_once h os d p st) q),
    containers-IsKilled sts gs os' qs,
  )

  -- When deletePod returns no error, in whatever order its goroutines send on the channel, the
  -- processes of the user were listed for each container status. Each listed process that the
  -- goroutine for it in the first loop finds, and sees in the group of the container ID or with a
  -- parent in it, got a signal to stop; each that the goroutine for it in the second loop finds
  -- and sees so got one to kill, behind all signals to stop of the container; all of these
  -- arrived; and the directory of the pod was removed. The two loops look at the processes anew,
  -- so one that only the first sees in the group is not said to be killed. The loop has read all
  -- that is sent. The goroutines of a container send in any order, a nil last.
  pub delete_pod-AreKilled :
      (sts : List ContainerStatus) (gs : List Sequence) (rs : Sequence)
      → AreOrders h os d p sts gs
      → Interleaves gs rs
      → read_errors sts rs ≡ some none
      → All IsKilled sts × (length rs ≡ length sts)
  delete_pod-AreKilled sts gs rs o i e =
      let (done, len) =
        read_errors_interleaved sts gs rs (orders-EndAtNil h os d p sts gs o)
          (orders_pending h os d p sts gs o) i e in
      (containers-IsKilled sts gs o done, len)
