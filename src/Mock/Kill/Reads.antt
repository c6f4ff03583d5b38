-- ===== src/Mock/Kill/Reads.antt =====
-- The reads of the error channel in deletePod.
use virtual_kubelet_cmd.Base.{
  ◌+◌, ◌≤◌, Bool, true, false, Option, none, some, List, [], ◌∷◌, ◌++◌, ◌≡◌, refl, if◌then◌else◌,
  arith, length, is_some, Option-cases, inl, inr,
}
use virtual_kubelet_cmd.Disk.{Disk}
use virtual_kubelet_cmd.Errors.{Error, external}
use virtual_kubelet_cmd.Host.{Host}
use virtual_kubelet_cmd.Kube.{ContainerStatus, Pod}
use virtual_kubelet_cmd.Mock.Process.{get_user_processes}
use virtual_kubelet_cmd.Mock.Kill.{
  Act, signal, sigstop, sigkill, remove, report, Signals, signal_all, delete_container,
  delete_containers, reports, read_errors,
}

pub length-reports :
    (xs ys : List Act) → length (reports (xs ++ ys)) ≡ length (reports xs) + length (reports ys)
length-reports [] ys = omega arith
length-reports (signal sig pid ∷ xs) ys = length-reports xs ys
length-reports (remove dir ∷ xs) ys = length-reports xs ys
length-reports (report e ∷ xs) ys = omega (arith, length-reports xs ys)

enough_reads :
    (sts : List ContainerStatus) (rs : List (Option Error))
    → length sts ≤ length rs
    → is_some (read_errors sts rs) ≡ true
unfolding read_errors
enough_reads [] rs h = refl
enough_reads (st ∷ sts) [] h = ground (arith, h)
enough_reads (st ∷ sts) (some e ∷ rs) h = refl
enough_reads (st ∷ sts) (none ∷ rs) h = enough_reads sts rs (omega (arith, h))

module _ (h : Host) (os : Signals) (d : Disk) (p : Pod) where
  -- The last send of a goroutine.
  last_report :
      (b : Bool)
      → 1
        ≤ length (
            reports (
              if b
              then report none ∷ []
              else report (some (external "failed to delete pod directory")) ∷ []))
  last_report true = omega arith
  last_report false = omega arith

  pub reports_once : (st : ContainerStatus) → 1 ≤ length (reports (delete_container h os d p st))
  unfolding delete_container
  reports_once st = elim (Option-cases (get_user_processes (os.listing st))) [
    | inl e ↦ rw (e, delete_container) (omega arith)
    | inr (pids, e) ↦
        rw (e, delete_container)
          (omega (
            arith,
            length-reports (signal_all os st sigstop pids) _,
            length-reports (signal_all os st sigkill pids) _,
            last_report (d.remove_all (h.path_join (h.getenv "HOME" ∷ p.namespace ∷ p.name ∷ []))),
          ))
  ]

  reports_all :
      (sts : List ContainerStatus) → length sts ≤ length (reports (delete_containers h os d p sts))
  unfolding delete_containers
  reports_all [] = omega arith
  reports_all (st ∷ sts) = omega (
    arith,
    reports_once st,
    reports_all sts,
    length-reports (delete_container h os d p st) (delete_containers h os d p sts),
  )

  -- With a channel that takes every error, the loop of deletePod that reads the channel once for each
  -- container status never waits for ever.
  pub delete_containers-read_errors :
      (sts : List ContainerStatus)
      → is_some (read_errors sts (reports (delete_containers h os d p sts))) ≡ true
  delete_containers-read_errors sts =
      enough_reads sts (reports (delete_containers h os d p sts)) (reports_all sts)
