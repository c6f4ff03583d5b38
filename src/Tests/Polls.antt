-- ===== src/Tests/Polls.antt =====
-- The theorems on polls, at a pod whose container has ended.
use virtual_kubelet_cmd.Base.{
  string_equality, inl, inr, some, [], ◌∷◌, pos, ◌≡◌, refl, map, ◌↔◌, ◌⊎◌, All,
}
use virtual_kubelet_cmd.Base.Dict.{find}
use virtual_kubelet_cmd.Base.Outcome.{ok}
use virtual_kubelet_cmd.Kube.{Pod, Phase}
use virtual_kubelet_cmd.Mock.Monitor.{
  create_pod_status_from_container_status, observe, create_container_status,
  determine_container_status, all_zombies, status_named,
}
use virtual_kubelet_cmd.Mock.Process.{get_process_status}
use virtual_kubelet_cmd.Mock.Monitor.Poll.{polled, next_status, next_of}
use virtual_kubelet_cmd.Mock.Monitor.Counts.{EndedWell, HasEnded}
use virtual_kubelet_cmd.Mock.Monitor.PodPhase.{Polls, poll_statuses, poll_phase, two-Polls_end}
use virtual_kubelet_cmd.Mock.Monitor.Sticky.{HasTerminated, polls_sticky}
use virtual_kubelet_cmd.Mock.Provider.{Provider}
use virtual_kubelet_cmd.Mock.StatusLoop.{status_loop, notify_pod_statuses, get_pods_from}
use virtual_kubelet_cmd.Mock.StatusLoop.Settled.{status_loop_keeps}
use virtual_kubelet_cmd.Tests.Fixtures.{
  quiet_host, ended_pod, ended_status, exit_with, main_container, value_of, pod_with, status_with,
}

abbrev poll : Pod → Pod
unfolding create_pod_status_from_container_status
poll p = value_of p (create_pod_status_from_container_status {E = Unit {0}} quiet_host p)

first_poll : Polls quiet_host ended_pod (poll ended_pod)
unfolding create_pod_status_from_container_status
first_poll = refl

second_poll : Polls quiet_host (poll ended_pod) (poll (poll ended_pod))
unfolding create_pod_status_from_container_status
second_poll = refl

poll_statuses_example :
    (poll ended_pod).status.container_statuses
    ≡ map (polled quiet_host (ended_status (pos 0) ∷ [])) (main_container ∷ [])
poll_statuses_example = poll_statuses quiet_host ended_pod (poll ended_pod) first_poll

abbrev TwoEnded : (p q : Pod) → Type 0
TwoEnded p q =
    ((q.status.phase ≡ Phase.succeeded) ↔ All EndedWell p.status.container_statuses)
    × ((q.status.phase ≡ Phase.failed) ↔ (
        All HasEnded p.status.container_statuses × (¬ All EndedWell p.status.container_statuses)))
    × ((q.status.phase ≡ Phase.running) ↔ (¬ All HasEnded p.status.container_statuses))

poll_phase_example : TwoEnded ended_pod (poll ended_pod)
poll_phase_example = poll_phase quiet_host ended_pod (poll ended_pod) first_poll

gone : All (λ c. HasEnded (polled quiet_host (ended_status (pos 0) ∷ []) c)) (main_container ∷ [])
unfolding next_status next_of status_named observe determine_container_status get_process_status
    all_zombies create_container_status
gone = (refl, tt)

two-Polls_end_example :
    ((poll (poll ended_pod)).status.phase ≡ Phase.succeeded)
    ⊎ ((poll (poll ended_pod)).status.phase ≡ Phase.failed)
two-Polls_end_example =
    two-Polls_end quiet_host quiet_host ended_pod (poll ended_pod) (poll (poll ended_pod)) gone
      first_poll second_poll

-- A pod whose container has ended with exit code 1.
abbrev stuck_pod : Pod
stuck_pod =
    pod_with "default" "web" (status_with Phase.running (some 5) (ended_status (pos 1) ∷ []))

first_stuck : Polls quiet_host stuck_pod (poll stuck_pod)
unfolding create_pod_status_from_container_status
first_stuck = refl

second_stuck : Polls quiet_host (poll stuck_pod) (poll (poll stuck_pod))
unfolding create_pod_status_from_container_status
second_stuck = refl

was_stuck : HasTerminated "main" (exit_with (pos 1)) stuck_pod.status.container_statuses
unfolding status_named
was_stuck = (ended_status (pos 1), refl, refl)

polls_sticky_example :
    HasTerminated "main" (exit_with (pos 1)) (poll (poll stuck_pod)).status.container_statuses
polls_sticky_example =
    polls_sticky (quiet_host ∷ quiet_host ∷ []) stuck_pod (poll (poll stuck_pod)) "main"
      (exit_with (pos 1)) (poll stuck_pod, first_stuck, (poll (poll stuck_pod), second_stuck, refl))
      refl (inl refl) was_stuck refl

abbrev settled_pod : Pod
settled_pod =
    pod_with "default" "web" (status_with Phase.succeeded (some 5) (ended_status (pos 0) ∷ []))

abbrev settled : Provider
settled = record { pods = ("default-web", settled_pod) ∷ []; notified = []; acts = [] }

one_round : status_loop (quiet_host ∷ []) settled ≡ ok settled
unfolding status_loop notify_pod_statuses get_pods_from
one_round = refl

status_loop_keeps_example : find "default-web" settled.pods ≡ some settled_pod
status_loop_keeps_example =
    status_loop_keeps (quiet_host ∷ []) "default-web" settled_pod settled settled (inr (inl refl))
      one_round (unfold find in refl)
