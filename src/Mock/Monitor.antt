-- ===== src/Mock/Monitor.antt =====
-- internal/provider/mock/monitor.go: the status of a pod from its processes. A poll reads the
-- statuses of the poll before through maps keyed by container name.
pub mod Counts
pub mod Poll
pub mod Sticky
pub mod PodPhase
use virtual_kubelet_cmd.Base.{
  String, Bool, true, false, not, Option, none, some, List, [], ◌∷◌, ℤ, pos, ◌==◌, int_equality,
  string_equality, nat_equality, if◌then◌else◌, length, count, is_some,
}
use virtual_kubelet_cmd.Base.Dict.{Dict, insert, find_or}
use virtual_kubelet_cmd.Base.Outcome.{Outcome, ok, panic}
use virtual_kubelet_cmd.Host.{Host}
use virtual_kubelet_cmd.Kube.{
  Time, Container, ContainerState, StateRunning, StateTerminated, ContainerStatus, Phase,
  ConditionType, PodCondition, Pod,
}
use virtual_kubelet_cmd.Mock.Process.{get_process_status}

abbrev pub running_since : Time → ContainerState
running_since t = record { running = some (record { started_at = t }); terminated = none }

abbrev pub terminated_with : StateTerminated → ContainerState
terminated_with t = record { running = none; terminated = some t }

unfoldable pub create_container_status :
    Container → ContainerState → String → String → ContainerStatus
create_container_status c state pgid image_id = record {
  name = c.name;
  state = state;
  ready = is_some state.running;
  restart_count = 0;
  image = c.image;
  image_id = image_id;
  container_id = pgid;
}

-- The loop that looks for a process that is no zombie.
unfoldable pub all_zombies : List String → Bool
all_zombies [] = true
all_zombies (s ∷ rest) = if s == "Z" then all_zombies rest else false

unfoldable pub determine_container_status :
    Container → List String → String → Time → Time → String → Bool → ContainerStatus
determine_container_status c process_status pgid start finish image_id has_stderr =
    if all_zombies process_status
    then create_container_status c
        (terminated_with (record {
          exit_code = if has_stderr then pos 3 else pos 0;
          reason = if has_stderr then "stderrNotEmpty" else "Completed";
          message =
              if has_stderr then "The stderr file is not empty." else "All processes are zombies";
          started_at = start;
          finished_at = finish;
        }))
        pgid image_id
    else create_container_status c (running_since start) pgid image_id

-- The maps that createPodStatusFromContainerStatus fills.
pub record Previous : Type 0 where
  pub start_time : Dict String Time
  pub finish_time : Dict String Time
  pub exit_code : Dict String ℤ
  pub terminated_reason : Dict String String
  pub terminated_message : Dict String String
  pub state_string : Dict String String
  pub image_ids : Dict String String
  pub pgids : Dict String String

abbrev pub no_previous : Previous
no_previous = record {
  start_time = [];
  finish_time = [];
  exit_code = [];
  terminated_reason = [];
  terminated_message = [];
  state_string = [];
  image_ids = [];
  pgids = [];
}

-- The state of a container that has ended.
abbrev pub ended : Container → ℤ → String → String → Time → Time → String → String → ContainerStatus
ended c code reason message start finish pgid image_id =
    create_container_status c
      (terminated_with (record {
        exit_code = code;
        reason = reason;
        message = message;
        started_at = start;
        finished_at = finish;
      }))
      pgid image_id

-- createContainerStatusFromProcessStatus behind its early return: a look at the processes.
unfoldable pub observe : Host → Container → Time → Time → String → String → ContainerStatus
observe h c start finish pgid image_id = elim h.pids [
  | none ↦ ended c (pos 2) "getPidsError" "Error getting pids" start finish pgid image_id
  | some pids ↦ elim (h.file_size (h.path_join (h.path_dir image_id ∷ "stderr" ∷ []))) [
    | none ↦
        ended c (pos 2) "getStderrFileInfoError" "Error getting stderr file info" start finish pgid
          image_id
    | some size ↦
        determine_container_status c (get_process_status h pids pgid) pgid start finish image_id
          (not (size == 0))
  ]
]

-- createContainerStatusFromProcessStatus: an exit code 1 is kept, with its reason and message.
unfoldable pub create_container_status_from_process_status :
    Host → Container → Previous → ContainerStatus
create_container_status_from_process_status h c prev =
    let start = find_or {V = Time} 0 c.name prev.start_time in
    let finish = find_or {V = Time} 0 c.name prev.finish_time in
    let pgid = find_or "" c.name prev.pgids in
    let image_id = find_or "" c.name prev.image_ids in
    if find_or (pos 0) c.name prev.exit_code == pos 1
    then ended c (pos 1) (find_or "" c.name prev.terminated_reason)
        (find_or "" c.name prev.terminated_message) start finish pgid image_id
    else observe h c start finish pgid image_id

-- What the inner loop records of the state of the status that it finds.
remember_state : Host → String → Option StateRunning → Option StateTerminated → Previous → Previous
remember_state h name (some r) t seen = record seen {
  state_string = insert name "Running" seen.state_string;
  start_time = insert name r.started_at seen.start_time;
  finish_time = insert name h.now seen.finish_time;
}
remember_state h name none (some t) seen = record seen {
  state_string = insert name "Terminated" seen.state_string;
  start_time = insert name t.started_at seen.start_time;
  finish_time = insert name t.finished_at seen.finish_time;
  terminated_reason = insert name t.reason seen.terminated_reason;
  terminated_message = insert name t.message seen.terminated_message;
  exit_code = insert name t.exit_code seen.exit_code;
}
remember_state h name none none seen = record seen {
  state_string = insert name "Waiting" seen.state_string;
  start_time = insert name h.now seen.start_time;
  finish_time = insert name h.now seen.finish_time;
}

-- The body of the inner loop: the IDs, then the state.
remember : Host → String → ContainerStatus → Previous → Previous
unfolding remember_state
remember h name st prev = remember_state h name st.state.running st.state.terminated (record prev {
  image_ids = insert name st.image_id prev.image_ids;
  pgids = insert name st.container_id prev.pgids;
})

-- The inner loop: the first status with the container's name.
unfoldable pub status_named : String → List ContainerStatus → Option ContainerStatus
status_named name [] = none
status_named name (st ∷ rest) = if st.name == name then some st else status_named name rest

-- An entry of the slice that no status was found for.
abbrev pub zero_status : ContainerStatus
zero_status = record {
  name = "";
  state = record { running = none; terminated = none };
  ready = false;
  restart_count = 0;
  image = "";
  image_id = "";
  container_id = "";
}

-- The outer loop: the new statuses, and the maps at its end.
unfoldable pub poll_containers :
    Host → List ContainerStatus → List Container → Previous → List ContainerStatus × Previous
unfolding remember
poll_containers h old [] prev = ([], prev)
poll_containers h old (c ∷ cs) prev = elim (status_named c.name old) [
  | none ↦ let (new, last) = poll_containers h old cs prev in (zero_status ∷ new, last)
  | some st ↦
      let prev' = remember h c.name st prev in
      let (new, last) = poll_containers h old cs prev' in
      (create_container_status_from_process_status h c prev' ∷ new, last)
]

abbrev pub has_terminated : ContainerStatus → Bool
has_terminated st = is_some st.state.terminated

abbrev pub has_failed : ContainerStatus → Bool
has_failed st = elim st.state.terminated [ none ↦ false | some t ↦ not (t.exit_code == pos 0) ]

-- Whether all containers have terminated, and whether none of them with a non-zero code.
unfoldable pub check_terminated_container : List ContainerStatus → Bool × Bool
check_terminated_container sts = (count has_terminated sts == length sts, count has_failed sts == 0)

abbrev pub condition : ConditionType → Bool → Time → PodCondition
condition kind status t = record { kind = kind; status = status; last_transition = t }

-- The phase that the counters give.
abbrev pub phase_of : Bool × Bool → Phase
phase_of (all_terminated, all_zero) =
    if all_terminated then if all_zero then Phase.succeeded else Phase.failed else Phase.running

-- The new status of the pod: the start time and the first container are read by `*` and `[0]`, which
-- panic where they are not there.
unfoldable pub assemble :
    {E : Type 0}
    → Host
    → Pod
    → Bool × Bool
    → List ContainerStatus × Previous
    → Option Time
    → List Container
    → Outcome E Pod
assemble h p checked polled none cs = panic
assemble h p checked polled (some start) [] = panic
assemble h p checked polled (some start) (c ∷ cs) = ok (record p {
  deletion_timestamp = if checked.0 then some h.now else p.deletion_timestamp;
  status = record {
    phase = phase_of checked;
    reason = "";
    message = "";
    start_time = some start;
    pod_ip = h.getenv "VKUBELET_POD_IP";
    conditions =
        condition ConditionType.scheduled true start
        ∷ condition ConditionType.initialized true start
        ∷ condition ConditionType.ready (not checked.0)
            (find_or {V = Time} 0 c.name polled.1.start_time)
        ∷ [];
    container_statuses = polled.0;
  };
})

-- The phase goes by the statuses of the poll before.
unfoldable pub create_pod_status_from_container_status : {E : Type 0} → Host → Pod → Outcome E Pod
unfolding assemble
create_pod_status_from_container_status h p =
    assemble h p (check_terminated_container p.status.container_statuses)
      (poll_containers h p.status.container_statuses p.containers no_previous) p.status.start_time
      p.containers
