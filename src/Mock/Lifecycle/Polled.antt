-- ===== src/Mock/Lifecycle/Polled.antt =====
-- The rounds of statusLoop leave the store as it is, the statuses and deletion timestamps forgotten.
use virtual_kubelet_cmd.Base.{
  String, string_equality, Bool, none, some, Option, List, [], ◌∷◌, ◌≡◌, refl, ap, Bool-cases, inl,
  inr, nat_equality,
}
use virtual_kubelet_cmd.Base.Dict.{Dict}
use virtual_kubelet_cmd.Base.Outcome.{Outcome, ok, err, panic, Ensures}
use virtual_kubelet_cmd.Errors.{Error}
use virtual_kubelet_cmd.Host.{Host}
use virtual_kubelet_cmd.Kube.{Container, ContainerStatus, Pod, Time}
use virtual_kubelet_cmd.Mock.Monitor.{
  Previous, no_previous, poll_containers, check_terminated_container,
  create_pod_status_from_container_status, assemble,
}
use virtual_kubelet_cmd.Mock.Provider.{Provider, notify}
use virtual_kubelet_cmd.Mock.StatusLoop.{
  is_settled, add_entry, add_polled, get_pods_from, notify_all, notify_pod_statuses, status_loop,
}
use virtual_kubelet_cmd.Mock.Lifecycle.Abstract.{spec_of, specs}

-- A poll leaves the specs.
abbrev pub SameSpec : Pod → Pod → Type 0
SameSpec p q = spec_of q ≡ spec_of p

assemble-SameSpec :
    (h : Host) (p : Pod) (checked : Bool × Bool) (polled : List ContainerStatus × Previous)
    (start : Option Time) (cs : List Container)
    → Ensures (SameSpec p) (assemble {E = Error} h p checked polled start cs)
unfolding assemble
assemble-SameSpec h p checked polled none cs = tt
assemble-SameSpec h p checked polled (some t) [] = tt
assemble-SameSpec h p checked polled (some t) (c ∷ cs) = refl

poll-SameSpec :
    (h : Host) (p : Pod)
    → Ensures (SameSpec p) (create_pod_status_from_container_status {E = Error} h p)
unfolding create_pod_status_from_container_status
poll-SameSpec h p =
    assemble-SameSpec h p (check_terminated_container p.status.container_statuses)
      (poll_containers h p.status.container_statuses p.containers no_previous) p.status.start_time
      p.containers

abbrev Polled : Type 0
Polled = Dict String Pod × List Pod

add_entry-specs :
    (key : String) (p : Pod) (m : Dict String Pod) (rest : Outcome Error Polled)
    → Ensures (λ r. specs r.0 ≡ specs m) rest
    → Ensures (λ r. specs r.0 ≡ specs ((key, p) ∷ m)) (add_entry (key, p) rest)
add_entry-specs key p m (ok r) h = ap (λ l. (key, spec_of p) ∷ l) h
add_entry-specs key p m (err e) h = tt
add_entry-specs key p m panic h = tt

add_polled-specs :
    (key : String) (p : Pod) (m : Dict String Pod) (q : Outcome Error Pod)
    (rest : Outcome Error Polled)
    → Ensures (SameSpec p) q
    → Ensures (λ r. specs r.0 ≡ specs m) rest
    → Ensures (λ r. specs r.0 ≡ specs ((key, p) ∷ m)) (add_polled key q rest)
add_polled-specs key p m (ok q) (ok r) e h = rw (e, h) refl
add_polled-specs key p m (ok q) (err x) e h = tt
add_polled-specs key p m (ok q) panic e h = tt
add_polled-specs key p m (err x) rest e h = tt
add_polled-specs key p m panic rest e h = tt

get_pods-specs :
    (h : Host) (m : Dict String Pod) → Ensures (λ r. specs r.0 ≡ specs m) (get_pods_from h m)
unfolding get_pods_from
get_pods-specs h [] = refl
get_pods-specs h ((key, p) ∷ m) = elim (Bool-cases (is_settled p.status.phase)) [
  | inl e ↦ rw e (add_entry-specs key p m (get_pods_from h m) (get_pods-specs h m))
  | inr e ↦ rw e (
      add_polled-specs key p m (create_pod_status_from_container_status h p) (get_pods_from h m)
        (poll-SameSpec h p) (get_pods-specs h m))
]

-- The specs that a run leaves, if it leaves a state.
abbrev pub Leaves : Dict String Pod → Outcome Error Provider → Type 0
Leaves m o = Ensures (λ pr. specs pr.pods ≡ m) o

notify_all-Leaves :
    (ls : List Pod) (pr : Provider) (m : Dict String Pod)
    → specs pr.pods ≡ m
    → specs (notify_all ls pr).pods ≡ m
notify_all-Leaves [] pr m e = e
notify_all-Leaves (p ∷ ls) pr m e = notify_all-Leaves ls (notify p pr) m e

round-Leaves :
    (pr : Provider) (o : Outcome Error Polled)
    → Ensures (λ r. specs r.0 ≡ specs pr.pods) o
    → Leaves
        (specs pr.pods)
        (elim (elim o as (λ _. Outcome Error Provider) [
          | ok r ↦ ok (notify_all r.1 (record pr { pods = r.0 }))
          | err e ↦ err e
          | panic ↦ panic
        ])
          as (λ _. Outcome Error Provider) [ ok pr' ↦ ok pr' | err e ↦ ok pr | panic ↦ panic ])
round-Leaves pr (ok (m, ls)) h = notify_all-Leaves ls (record pr { pods = m }) (specs pr.pods) h
round-Leaves pr (err e) h = refl
round-Leaves pr panic h = tt

pub polls-Leaves : (h : Host) (pr : Provider) → Leaves (specs pr.pods) (status_loop (h ∷ []) pr)
unfolding status_loop notify_pod_statuses
polls-Leaves h pr = round-Leaves pr (get_pods_from h pr.pods) (get_pods-specs h pr.pods)
