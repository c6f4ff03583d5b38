-- ===== src/Mock/Provider.antt =====
-- The pod store of internal/provider/mock/mock.go. The map holds pointers: what a call changes of a
-- pod that is stored is seen in the store. `notified` is what the notifier was called with, the last
-- first; NotifyPods has set it before any other call.
pub mod Create
pub mod Keys
pub mod Refined
pub mod Refused
pub mod Schedule
use virtual_kubelet_cmd.Base.{
  ℕ, String, Bool, true, false, not, ◌||◌, Option, none, some, List, [], ◌∷◌, ◌++◌, ℤ, pos, ◌==◌,
  int_equality, nat_equality, string_equality, if◌then◌else◌, ◌<>◌, length, count, filter_map,
}
use virtual_kubelet_cmd.Base.Dict.{Dict, find, insert, erase}
use virtual_kubelet_cmd.Base.Outcome.{Outcome, ok, err, panic}
use virtual_kubelet_cmd.Disk.{Disk}
use virtual_kubelet_cmd.Errors.{Error, not_found, plain}
use virtual_kubelet_cmd.Host.{Host}
use virtual_kubelet_cmd.Kube.{
  Time, Container, ContainerStatus, Phase, ConditionType, PodCondition, PodStatus, Pod,
}
use virtual_kubelet_cmd.Manager.{ResourceManager}
use virtual_kubelet_cmd.Mock.Command.Parallel.{Sent, run_script_parallel}
use virtual_kubelet_cmd.Mock.Command.Script.{Shell}
use virtual_kubelet_cmd.Mock.Kill.{Signals, Act, delete_containers}
use virtual_kubelet_cmd.Mock.Monitor.{
  condition, has_failed, create_pod_status_from_container_status,
}
use virtual_kubelet_cmd.Mock.Volumes.Switch.{volume_all, volumes}

pub record Provider : Type 0 where
  pub pods : Dict String Pod
  pub notified : List Pod
  -- the signals and removals of deletePod, in order
  pub acts : List Act

abbrev pub notify : Pod → Provider → Provider
notify p pr = record pr { notified = p ∷ pr.notified }

abbrev pub store : String → Pod → Provider → Provider
store key p pr = record pr { pods = insert key p pr.pods }

unfoldable pub build_key_from_names : String → String → String
build_key_from_names namespace name = namespace <> "-" <> name

unfoldable pub build_key : Pod → Outcome Error String
unfolding build_key_from_names
build_key p =
    if p.namespace == ""
    then err (plain "pod namespace not found")
    else if p.name == ""
    then err (plain "pod name not found")
    else ok (build_key_from_names p.namespace p.name)

-- The loop over the channel of statuses appends what each goroutine sent.
abbrev pub with_statuses : List Sent → Pod → Pod
with_statuses sent p = record p {
  status = record (p.status) {
    container_statuses = p.status.container_statuses ++ filter_map (λ (s : Sent). s.status) sent;
  };
}

-- The pod status at the end of CreatePod: failed if as many containers are bad as there are
-- statuses, and running if not.
unfoldable pub finish_create : Host → Pod → Pod
finish_create h p =
    let sts = p.status.container_statuses in
    if count has_failed sts == length sts
    then record p {
      status = record (p.status) {
        phase = Phase.failed;
        reason = "AllContainersStartFailed";
        message = "All containers in the pod failed to start";
        start_time = some h.now;
        conditions =
            condition ConditionType.scheduled true h.now
            ∷ condition ConditionType.ready false h.now
            ∷ condition ConditionType.initialized true h.now
            ∷ [];
      };
    }
    else record p {
      status = record (p.status) {
        phase = Phase.running;
        reason = "Running";
        message = "Pod is running";
        start_time = some h.now;
        pod_ip = h.getenv "VKUBELET_POD_IP";
        conditions =
            condition ConditionType.scheduled true h.now
            ∷ condition ConditionType.ready true h.now
            ∷ condition ConditionType.initialized true h.now
            ∷ [];
      };
    }

-- What is left of the provider after the goroutines of a pod, and what CreatePod returns.
abbrev pub created :
    Host → String → Pod → Provider → Outcome Error (List Sent) → Outcome Error (Unit {0}) × Provider
created h key p pr (ok sent) =
    let done = finish_create h (with_statuses sent p) in (ok tt, notify done (store key done pr))
created h key p pr (err e) = (err e, pr)
created h key p pr panic = (panic, pr)

-- The steps of CreatePod behind the volumes, and behind the key. `order` is the order in which the
-- goroutines of the containers finish. An error of the volumes leaves the pod in the store.
module _ (h : Host) (d : Disk) (sh : Shell) (rm : ResourceManager) (order : List Container) where
  abbrev pub create_with_volumes :
      String
      → Pod
      → Provider
      → Outcome Error (Dict String String)
      → Outcome Error (Unit {0}) × Provider
  create_with_volumes key p stored (ok vol) =
      created h key p stored (run_script_parallel h d sh p h.now vol order)
  create_with_volumes key p stored (err e) = (err e, stored)
  create_with_volumes key p stored panic = (panic, stored)

  abbrev pub create_with_key :
      Pod → Provider → Outcome Error String → Outcome Error (Unit {0}) × Provider
  create_with_key p pr (ok key) =
      create_with_volumes key p (store key p pr) (volumes h d p rm volume_all []).0
  create_with_key p pr (err e) = (err e, pr)
  create_with_key p pr panic = (panic, pr)

  unfoldable pub create_pod : Pod → Provider → Outcome Error (Unit {0}) × Provider
  unfolding build_key finish_create
  create_pod p pr = create_with_key p pr (build_key p)

unfoldable pub update_pod : Pod → Provider → Outcome Error (Unit {0}) × Provider
unfolding build_key
update_pod p pr = elim (build_key p) [
  | err e ↦ (err e, pr)
  | panic ↦ (panic, pr)
  | ok key ↦ (ok tt, notify p (store key p pr))
]

abbrev pub mark_deleted : Time → Pod → Pod
mark_deleted now p = record p {
  deletion_timestamp = some now;
  status = record (p.status) {
    phase = Phase.unknown;
    reason = "ManuallyDeleted";
    message = "Pod has been deleted";
  };
}

-- The error of deletePod is dropped.
unfoldable pub delete_pod :
    Host → Disk → Signals → Pod → Provider → Outcome Error (Unit {0}) × Provider
unfolding build_key
delete_pod h d os p pr = elim (build_key p) [
  | err e ↦ (err e, pr)
  | panic ↦ (panic, pr)
  | ok key ↦ elim (find key pr.pods) [
    | none ↦ (err (not_found "Pod not found"), pr)
    | some old ↦ (
      ok tt,
      notify (mark_deleted h.now p) (record pr {
        pods = erase key pr.pods;
        acts = pr.acts ++ delete_containers h os d p p.status.container_statuses;
      }),
    )
  ]
]

unfoldable pub get_pod : String → String → Provider → Outcome Error Pod
unfolding build_key_from_names
get_pod namespace name pr = elim (find (build_key_from_names namespace name) pr.pods) [
  | some p ↦ ok p
  | none ↦ err (not_found "pod is not known to the provider")
]

unfoldable pub get_pod_status : String → String → Provider → Outcome Error PodStatus
unfolding get_pod
get_pod_status namespace name pr = elim (get_pod namespace name pr) [
  | ok p ↦ ok p.status
  | err e ↦ err e
  | panic ↦ panic
]
