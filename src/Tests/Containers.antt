-- ===== src/Tests/Containers.antt =====
-- The theorems on starting, storing and deleting pods, at a pod with one container.
use mathlib.Core.List.Permᴰ
use virtual_kubelet_cmd.Base.{
  String, string_equality, false, none, some, List, [], ◌∷◌, ◌≡◌, ◌≢◌, refl, ◌⊎◌, inl, Any, length,
  ◌==◌,
}
use virtual_kubelet_cmd.Base.Dict.{Dict, find, insert}
use virtual_kubelet_cmd.Base.Outcome.{Outcome, ok, err, panic}
use virtual_kubelet_cmd.Errors.{Error, external}
use virtual_kubelet_cmd.Kube.{Container, Pod, Phase}
use virtual_kubelet_cmd.Mock.Command.Script.{Shell}
use virtual_kubelet_cmd.Mock.Command.Parallel.{Sent, run_script_parallel}
use virtual_kubelet_cmd.Mock.Command.Total.{run_script_parallel_total}
use virtual_kubelet_cmd.Mock.Kill.{delete_containers}
use virtual_kubelet_cmd.Mock.Kill.Owned.{IsFair, delete_containers-IsFair}
use virtual_kubelet_cmd.Mock.Lifecycle.{Event, creates, updates, deletes, polls, run_events}
use virtual_kubelet_cmd.Mock.Lifecycle.Abstract.{specs, replay_events}
use virtual_kubelet_cmd.Mock.Lifecycle.Specs.{run_events-replay_events}
use virtual_kubelet_cmd.Mock.Monitor.{create_pod_status_from_container_status}
use virtual_kubelet_cmd.Mock.StatusLoop.{status_loop}
use virtual_kubelet_cmd.Mock.Provider.{Provider, build_key, create_pod, update_pod, get_pod}
use virtual_kubelet_cmd.Mock.Provider.Create.{IsCreated, create_pod_ok, create_pod_err}
use virtual_kubelet_cmd.Mock.Provider.Refined.{
  Call, update, delete, get, Pods, Represents, run_calls, replay_calls, run_calls-replay_calls,
}
use virtual_kubelet_cmd.Mock.Provider.Keys.{colliding_pod_replaces}
use virtual_kubelet_cmd.Mock.Provider.Schedule.{SamePhase, create_pod_any_order}
use virtual_kubelet_cmd.Manager.{missing, get_secret}
use virtual_kubelet_cmd.Mock.Volumes.Switch.{volume_all, volumes}
use virtual_kubelet_cmd.Mock.Volumes.Unusable.{IsUnusableVolume}
use virtual_kubelet_cmd.Mock.Provider.Refused.{create_pod_refuses}
use virtual_kubelet_cmd.Tests.Fixtures.{
  quiet_host, good_disk, shell, no_objects, no_pods, new_pod, ended_pod, main_container, no_signals,
  pod_with, status_with, value_of,
}

-- A shell with two entries in its environment, one with two "=".
abbrev home_shell : Shell
home_shell = record shell { environ = "HOME=/home/user" ∷ "OPTS=a=b" ∷ [] }

abbrev run_of : List Container → Outcome Error (List Sent)
run_of = run_script_parallel quiet_host good_disk home_shell new_pod 100 []

run_script_parallel_total_example :
    (sent : List Sent) × (run_of (main_container ∷ main_container ∷ []) ≡ ok sent)
    × (length sent ≡ 2)
run_script_parallel_total_example =
    run_script_parallel_total quiet_host good_disk home_shell new_pod 100 (refl, (refl, tt)) []
      (main_container ∷ main_container ∷ [])

delete_containers-IsFair_example :
    IsFair quiet_host no_signals ended_pod.status.container_statuses (
      delete_containers quiet_host no_signals good_disk ended_pod
        ended_pod.status.container_statuses)
delete_containers-IsFair_example =
    delete_containers-IsFair quiet_host no_signals good_disk ended_pod
      ended_pod.status.container_statuses

abbrev creation : Outcome Error (Unit {0}) × Provider
creation = create_pod quiet_host good_disk shell no_objects (main_container ∷ []) new_pod no_pods

web_key : build_key new_pod ≡ ok "default-web"
unfolding build_key
web_key = refl

web_created : creation ≡ (ok tt, creation.1)
unfolding create_pod volumes run_script_parallel
web_created = refl

create_pod_ok_example :
    (q : Pod) × (vol : Dict String String) × (sent : List Sent) × ((volumes quiet_host good_disk
        new_pod no_objects volume_all []).0
      ≡ ok vol)
    × (run_script_parallel quiet_host good_disk shell new_pod 100 vol (main_container ∷ [])
        ≡ ok sent)
    × IsCreated "default-web" new_pod sent no_pods creation.1 q
create_pod_ok_example =
    create_pod_ok quiet_host good_disk shell no_objects (main_container ∷ []) "default-web" new_pod
      no_pods creation.1 web_key web_created

create_pod_any_order_example : SamePhase quiet_host good_disk shell no_objects creation creation.1
create_pod_any_order_example =
    create_pod_any_order quiet_host good_disk shell no_objects new_pod no_pods creation.1
      (main_container ∷ []) (main_container ∷ []) (Permᴰ.refl (main_container ∷ [])) web_created

-- A secret volume whose secret is not there.
abbrev pod_without_secret : Pod
pod_without_secret = record new_pod {
  volumes =
      record {
        name = "v";
        host_path = false;
        empty_dir = false;
        secret = some (record { secret_name = "s"; optional = some false });
        config_map = none;
        projected = none;
      }
      ∷ [];
}

abbrev refused : Outcome Error (Unit {0}) × Provider
refused =
    create_pod quiet_host good_disk shell no_objects (main_container ∷ []) pod_without_secret
      no_pods

abbrev error_of : Outcome Error (Unit {0}) → Error
error_of (ok u) = external ""
error_of (err e) = e
error_of panic = external ""

refuses : refused ≡ (err (error_of refused.0), refused.1)
unfolding create_pod volumes run_script_parallel get_secret
refuses = refl

create_pod_err_example :
    (refused.1.notified ≡ [])
    × (((refused.1 ≡ no_pods) × (build_key pod_without_secret ≡ err (error_of refused.0)))
        ⊎ ((key : String) × (build_key pod_without_secret ≡ ok key)
            × (find key refused.1.pods ≡ some pod_without_secret)))
create_pod_err_example =
    create_pod_err quiet_host good_disk shell no_objects (main_container ∷ []) pod_without_secret
      no_pods refused.1 (error_of refused.0) refuses

absent : get_secret no_objects "s" "default" ≡ missing
unfolding get_secret
absent = refl

unusable : Any (IsUnusableVolume pod_without_secret no_objects) pod_without_secret.volumes
unusable = inl (refl, refl, (refl, absent))

create_pod_refuses_example : ¬ (refused ≡ (ok tt, no_pods))
create_pod_refuses_example =
    create_pod_refuses quiet_host good_disk shell no_objects (main_container ∷ [])
      pod_without_secret no_pods no_pods unusable

abbrev Differ : String → String → Type 0
Differ s t = s ≢ t

abbrev pod_of : String → String → Pod
pod_of namespace name = pod_with namespace name (status_with Phase.unset none [])

not_empty : (s : String) → (s == "") ≡ false → Differ s ""
not_empty s e f = let g = (string_equality.same_iff s "").1 f in cc

colliding_pod_replaces_example :
    get_pod "a-b" "c" (update_pod (pod_of "a" "b-c") (update_pod (pod_of "a-b" "c") no_pods).1).1
    ≡ ok (pod_of "a" "b-c")
colliding_pod_replaces_example =
    colliding_pod_replaces (pod_of "a-b" "c") (pod_of "a" "b-c") "a" "b" "c" no_pods refl refl
      (not_empty "a" refl) (not_empty "b-c" refl) refl refl

-- The pod is stored, read, deleted, read again and deleted again.
abbrev calls : List Call
calls =
    update new_pod
    ∷ get "default" "web"
    ∷ delete quiet_host good_disk no_signals new_pod
    ∷ get "default" "web"
    ∷ delete quiet_host good_disk no_signals new_pod
    ∷ []

abbrev nothing : Pods
nothing ns name = none

starts_empty : Represents no_pods.pods nothing
unfolding find
starts_empty ns name f = refl

run_calls-replay_calls_example : run_calls calls no_pods ≡ replay_calls calls nothing
run_calls-replay_calls_example =
    run_calls-replay_calls calls no_pods nothing (refl, (refl, (refl, (refl, (refl, tt)))))
      starts_empty

-- The life of a pod: created, polled, updated and deleted, beside one that is refused.
abbrev life : List Event
life =
    creates quiet_host good_disk shell no_objects (main_container ∷ []) new_pod
    ∷ polls quiet_host
    ∷ creates quiet_host good_disk shell no_objects (main_container ∷ []) pod_without_secret
    ∷ updates (pod_of "other" "db")
    ∷ deletes quiet_host good_disk no_signals new_pod
    ∷ []

abbrev after_life : Provider
after_life = value_of no_pods (run_events life no_pods)

lives : run_events life no_pods ≡ ok after_life
unfolding run_events create_pod volumes run_script_parallel get_secret status_loop
    create_pod_status_from_container_status insert find
lives = refl

run_events-replay_events_example : specs after_life.pods ≡ replay_events life (specs [])
run_events-replay_events_example = run_events-replay_events life no_pods after_life lives
