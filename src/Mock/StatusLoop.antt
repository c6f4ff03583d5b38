-- ===== src/Mock/StatusLoop.antt =====
-- GetPods, notifyPodStatuses and statusLoop of internal/provider/mock/mock.go: the rounds in which
-- the pods of the store are polled. A round meets the pods in the order of the list.
pub mod Settled
use virtual_kubelet_cmd.Base.{String, Bool, true, false, List, [], ◌∷◌, if◌then◌else◌}
use virtual_kubelet_cmd.Base.Dict.{Dict}
use virtual_kubelet_cmd.Base.Outcome.{Outcome, ok, err, panic}
use virtual_kubelet_cmd.Errors.{Error}
use virtual_kubelet_cmd.Host.{Host}
use virtual_kubelet_cmd.Kube.{Phase, Pod}
use virtual_kubelet_cmd.Mock.Monitor.{create_pod_status_from_container_status}
use virtual_kubelet_cmd.Mock.Provider.{Provider, notify}

-- GetPods passes over pods in these phases.
abbrev pub is_settled : Phase → Bool
is_settled Phase.failed = true
is_settled Phase.succeeded = true
is_settled Phase.pending = true
is_settled _ = false

abbrev pub add_entry :
    String × Pod
    → Outcome Error (Dict String Pod × List Pod)
    → Outcome Error (Dict String Pod × List Pod)
add_entry entry (ok (m, ls)) = ok (entry ∷ m, ls)
add_entry entry (err e) = err e
add_entry entry panic = panic

abbrev pub add_polled :
    String
    → Outcome Error Pod
    → Outcome Error (Dict String Pod × List Pod)
    → Outcome Error (Dict String Pod × List Pod)
add_polled key (ok q) (ok (m, ls)) = ok ((key, q) ∷ m, q ∷ ls)
add_polled key (ok q) (err e) = err e
add_polled key (ok q) panic = panic
add_polled key (err e) rest = err e
add_polled key panic rest = panic

-- The loop of GetPods: each pod that is not settled is polled in place.
unfoldable pub get_pods_from : Host → Dict String Pod → Outcome Error (Dict String Pod × List Pod)
get_pods_from h [] = ok ([], [])
get_pods_from h ((key, p) ∷ m) =
    let rest = get_pods_from h m in
    if is_settled p.status.phase
    then add_entry (key, p) rest
    else add_polled key (create_pod_status_from_container_status h p) rest

abbrev pub notify_all : List Pod → Provider → Provider
notify_all [] pr = pr
notify_all (p ∷ ls) pr = notify_all ls (notify p pr)

-- GetPods and then the notifier for each pod of its list.
unfoldable pub notify_pod_statuses : Host → Provider → Outcome Error Provider
unfolding get_pods_from
notify_pod_statuses h pr = elim (get_pods_from h pr.pods) [
  | ok (m, ls) ↦ ok (notify_all ls (record pr { pods = m }))
  | err e ↦ err e
  | panic ↦ panic
]

-- The rounds of statusLoop, one for each host that it meets; an error is logged, and nothing of the
-- round is kept.
unfoldable pub status_loop : List Host → Provider → Outcome Error Provider
unfolding notify_pod_statuses
status_loop [] pr = ok pr
status_loop (h ∷ hs) pr = elim (notify_pod_statuses h pr) [
  | ok pr' ↦ status_loop hs pr'
  | err e ↦ status_loop hs pr
  | panic ↦ panic
]
