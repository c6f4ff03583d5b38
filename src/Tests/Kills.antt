-- ===== src/Tests/Kills.antt =====
-- The theorems on deletePod and its error channel, at a pod with one container.
use mathlib.Core.List.Permᴰ
use virtual_kubelet_cmd.Base.{
  List, ◌*◌, ◌<◌, Option, none, some, [], ◌∷◌, ◌≡◌, refl, inl, arith, pos, map, length, All,
}
use virtual_kubelet_cmd.Errors.{Error}
use virtual_kubelet_cmd.Host.{Host}
use virtual_kubelet_cmd.Mock.Process.{get_user_processes, owned_by, get_parent_pid}
use virtual_kubelet_cmd.Mock.Kill.{delete_container, delete_containers, reports, read_errors}
use virtual_kubelet_cmd.Mock.Kill.Sequences.{sequence_of}
use virtual_kubelet_cmd.Mock.Kill.Killed.{IsKilled, own-AreOrders, delete_pod-AreKilled}
use virtual_kubelet_cmd.Mock.Kill.Channel.{
  returned, State, Reach, here, next, sends, takes_nil, closes, started, AreOrders, AlwaysReturns,
}
use virtual_kubelet_cmd.Mock.Kill.Channel.Returns.{delete_pod-AlwaysReturns, closed_silent, total}
use virtual_kubelet_cmd.Mock.Kill.Channel.Blocked.{sends_left_for_ever}
use virtual_kubelet_cmd.Mock.Kill.Sends.{Sequence, pending, Interleaves}
use virtual_kubelet_cmd.Tests.Fixtures.{quiet_host, good_disk, ended_pod, no_signals, signals_at}

abbrev begun : State
begun = started ended_pod.status.container_statuses ((none ∷ []) ∷ [])

one_nil :
    AreOrders quiet_host no_signals good_disk ended_pod ended_pod.status.container_statuses
      ((none ∷ []) ∷ [])
unfolding delete_container
one_nil = ((Permᴰ.refl (none ∷ []), refl), tt)

delete_pod-AlwaysReturns_example : AlwaysReturns 1 begun
delete_pod-AlwaysReturns_example =
    delete_pod-AlwaysReturns quiet_host no_signals good_disk ended_pod
      ended_pod.status.container_statuses ((none ∷ []) ∷ []) one_nil

abbrev ended : State
ended = record { left = [] ∷ []; buffer = []; reader = returned none }

runs_to_end : Reach 1 begun ended
unfolding started
runs_to_end =
    next
      (next (next here (sends begun none ([] ∷ []) (inl (refl, refl)) (omega arith)))
        (takes_nil _ [] 0 refl refl))
      (closes _ refl)

closed_silent_example : (pending ended.left ≡ 0) × (ended.buffer ≡ [])
closed_silent_example =
    closed_silent quiet_host no_signals good_disk ended_pod ended_pod.status.container_statuses
      ((none ∷ []) ∷ []) ended one_nil runs_to_end refl

-- A host with one process of the user, in the group of the container.
abbrev busy_host : Host
busy_host = record quiet_host {
  pids = some (pos 7 ∷ []);
  proc_stat = λ p. some "7 (sleep) S 1";
  fields = λ s. "7" ∷ "(sleep)" ∷ "S" ∷ "1" ∷ [];
}

sends_nil :
    Interleaves
      (map
        (sequence_of busy_host (signals_at busy_host) good_disk ended_pod)
        ended_pod.status.container_statuses)
      (none ∷ [])
unfolding delete_container get_user_processes owned_by get_parent_pid
sends_nil = ([] ∷ [], inl (refl, refl), (refl, tt))

reads_nil : read_errors ended_pod.status.container_statuses (none ∷ []) ≡ some none
unfolding read_errors
reads_nil = refl

delete_pod-AreKilled_example :
    All
      (IsKilled busy_host (signals_at busy_host) good_disk ended_pod)
      ended_pod.status.container_statuses
    × (length {A = Option Error} (none ∷ []) ≡ 1)
delete_pod-AreKilled_example =
    delete_pod-AreKilled busy_host (signals_at busy_host) good_disk ended_pod
      ended_pod.status.container_statuses
      (map (sequence_of busy_host (signals_at busy_host) good_disk ended_pod)
        ended_pod.status.container_statuses)
      (none ∷ [])
      (own-AreOrders busy_host (signals_at busy_host) good_disk ended_pod
        ended_pod.status.container_statuses)
      sends_nil reads_nil

-- A host whose one process has no group any more: both loops report it, and a nil comes behind.
abbrev vanishing_host : Host
vanishing_host = record busy_host { getpgid = λ p. none }

abbrev two_errors : List Sequence
two_errors =
    map (sequence_of vanishing_host (signals_at vanishing_host) good_disk ended_pod)
      ended_pod.status.container_statuses

three_sends :
    2 * 1
    < length (
        reports (
          delete_containers vanishing_host
            (signals_at vanishing_host)
            good_disk
            ended_pod
            ended_pod.status.container_statuses))
unfolding delete_containers delete_container get_user_processes owned_by
three_sends = omega arith

sends_left_for_ever_example : 0 < total two_errors
unfolding started
sends_left_for_ever_example =
    sends_left_for_ever vanishing_host (signals_at vanishing_host) good_disk ended_pod
      ended_pod.status.container_statuses two_errors
      (started ended_pod.status.container_statuses two_errors)
      (own-AreOrders vanishing_host (signals_at vanishing_host) good_disk ended_pod
        ended_pod.status.container_statuses)
      three_sends here
