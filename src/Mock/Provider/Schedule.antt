-- ===== src/Mock/Provider/Schedule.antt =====
-- CreatePod under another schedule of the goroutines that start the containers.
use mathlib.Core.List.Permᴰ
use mathlib.Core.List.{Permᴰ}
use virtual_kubelet_cmd.Base.{
  suc, ◌∷◌, String, string_equality, nat_equality, Bool, true, Option, none, some, List, [], ◌≡◌,
  refl, ◌∙◌, ap, arith, count, count-append, length, filter_map,
}
use virtual_kubelet_cmd.Base.Dict.{Dict}
use virtual_kubelet_cmd.Base.Outcome.{Outcome, ok, err, panic}
use virtual_kubelet_cmd.Disk.{Disk}
use virtual_kubelet_cmd.Errors.{Error}
use virtual_kubelet_cmd.Host.{Host}
use virtual_kubelet_cmd.Kube.{Container, ContainerStatus, Phase, Pod}
use virtual_kubelet_cmd.Manager.{ResourceManager}
use virtual_kubelet_cmd.Mock.Command.Order.{count-filter_map-perm, run-perm}
use virtual_kubelet_cmd.Mock.Command.Parallel.{Sent, run_script_parallel}
use virtual_kubelet_cmd.Mock.Command.Script.{Shell}
use virtual_kubelet_cmd.Mock.Monitor.{has_failed}
use virtual_kubelet_cmd.Mock.Volumes.Switch.{volume_all, volumes}
use virtual_kubelet_cmd.Mock.Provider.{
  Provider, store, build_key, with_statuses, finish_create, created, create_with_volumes,
  create_with_key, create_pod,
}

-- The phase of the pod that the notifier was called with last.
abbrev pub last_phase : List Pod → Option Phase
last_phase [] = none
last_phase (p ∷ ps) = some p.status.phase

length-count : (sts : List ContainerStatus) → length sts ≡ count (λ st. true) sts
length-count [] = refl
length-count (st ∷ sts) = ap suc (length-count sts)

-- Appended statuses are counted in any order.
count-with_statuses :
    (q : ContainerStatus → Bool) (p : Pod) {sent sent' : List Sent}
    → Permᴰ sent sent'
    → count q (with_statuses sent p).status.container_statuses
      ≡ count q (with_statuses sent' p).status.container_statuses
count-with_statuses q p {sent} {sent'} perm =
    let before = p.status.container_statuses in
    omega (
      arith,
      count-append q before (filter_map (λ (s : Sent). s.status) sent),
      count-append q before (filter_map (λ (s : Sent). s.status) sent'),
      count-filter_map-perm q (λ (s : Sent). s.status) perm,
    )

finish_create_phase-perm :
    (h : Host) (p : Pod) {sent sent' : List Sent}
    → Permᴰ sent sent'
    → (finish_create h (with_statuses sent p)).status.phase
      ≡ (finish_create h (with_statuses sent' p)).status.phase
unfolding finish_create
finish_create_phase-perm h p {sent} {sent'} perm = ground (
  arith,
  count-with_statuses has_failed p perm,
  count-with_statuses (λ st. true) p perm,
  length-count (with_statuses sent p).status.container_statuses,
  length-count (with_statuses sent' p).status.container_statuses,
)

module _ (h : Host) (d : Disk) (sh : Shell) (rm : ResourceManager) where
  -- Two providers after CreatePod that Differ in the statuses' order at most.
  abbrev pub SamePhase : Outcome Error (Unit {0}) × Provider → Provider → Type 0
  SamePhase r pr =
      (pr' : Provider) × (r ≡ (ok tt, pr')) × (last_phase pr'.notified ≡ last_phase pr.notified)

  created-perm :
      (key : String) (p : Pod) (pr pr' : Provider) (vol : Dict String String)
      (o o' : List Container) (r : Outcome Error (List Sent))
      → Permᴰ o o'
      → run_script_parallel h d sh p h.now vol o ≡ r
      → created h key p pr r ≡ (ok tt, pr')
      → SamePhase (created h key p pr (run_script_parallel h d sh p h.now vol o')) pr'
  created-perm key p pr pr' vol o o' (ok sent) perm e f =
      let (sent', g, same) = run-perm h d sh p h.now vol sent perm e in
      (
        (created h key p pr (ok sent')).1,
        rw g refl,
        ap some (finish_create_phase-perm h p (Permᴰ.symm same))
            ∙ ap (λ (r : Provider). last_phase r.notified)
                (ap (λ (x : Outcome Error (Unit {0}) × Provider). x.1) f),
      )
  created-perm key p pr pr' vol o o' (err x) perm e f = cc
  created-perm key p pr pr' vol o o' panic perm e f = cc

  with_volumes-perm :
      (key : String) (p : Pod) (pr pr' : Provider) (o o' : List Container)
      (v : Outcome Error (Dict String String))
      → Permᴰ o o'
      → create_with_volumes h d sh rm o key p pr v ≡ (ok tt, pr')
      → SamePhase (create_with_volumes h d sh rm o' key p pr v) pr'
  with_volumes-perm key p pr pr' o o' (ok vol) perm e =
      created-perm key p pr pr' vol o o' (run_script_parallel h d sh p h.now vol o) perm refl e
  with_volumes-perm key p pr pr' o o' (err x) perm e = cc
  with_volumes-perm key p pr pr' o o' panic perm e = cc

  with_key-perm :
      (p : Pod) (pr pr' : Provider) (o o' : List Container) (k : Outcome Error String)
      → Permᴰ o o'
      → create_with_key h d sh rm o p pr k ≡ (ok tt, pr')
      → SamePhase (create_with_key h d sh rm o' p pr k) pr'
  with_key-perm p pr pr' o o' (ok key) perm e =
      with_volumes-perm key p (store key p pr) pr' o o' (volumes h d p rm volume_all []).0 perm e
  with_key-perm p pr pr' o o' (err x) perm e = cc
  with_key-perm p pr pr' o o' panic perm e = cc

  -- If CreatePod succeeds under one schedule of the goroutines that start the containers, it succeeds
  -- under every other, and the notifier is told the same phase.
  pub create_pod_any_order :
      (p : Pod) (pr pr' : Provider) (o o' : List Container)
      → Permᴰ o o'
      → create_pod h d sh rm o p pr ≡ (ok tt, pr')
      → SamePhase (create_pod h d sh rm o' p pr) pr'
  unfolding create_pod
  create_pod_any_order p pr pr' o o' perm e = with_key-perm p pr pr' o o' (build_key p) perm e
