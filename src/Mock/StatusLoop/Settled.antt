-- ===== src/Mock/StatusLoop/Settled.antt =====
-- Pods that the rounds of statusLoop leave alone.
use virtual_kubelet_cmd.Base.{
  String, string_equality, true, false, some, List, [], ◌∷◌, ◌≡◌, refl, Bool-cases, inl, inr, arith,
  ◌⊎◌,
}
use virtual_kubelet_cmd.Base.Dict.{Dict, find}
use virtual_kubelet_cmd.Base.Outcome.{Outcome, ok, err, panic}
use virtual_kubelet_cmd.Errors.{Error}
use virtual_kubelet_cmd.Host.{Host}
use virtual_kubelet_cmd.Kube.{Phase, Pod}
use virtual_kubelet_cmd.Mock.Monitor.{create_pod_status_from_container_status}
use virtual_kubelet_cmd.Mock.Provider.{Provider, notify}
use virtual_kubelet_cmd.Mock.StatusLoop.{
  is_settled, add_entry, add_polled, get_pods_from, notify_all, notify_pod_statuses, status_loop,
}

abbrev Entries : Type 0
Entries = Dict String Pod × List Pod

-- What one entry of the store contributes to a round.
add_entry_keeps :
    (key j : String) (q p : Pod) (m m' : Dict String Pod) (ls : List Pod)
    (rest : Outcome Error Entries)
    → ((r : Entries) → rest ≡ ok r → find j m ≡ some p → find j r.0 ≡ some p)
    → add_entry (key, q) rest ≡ ok (m', ls)
    → find j ((key, q) ∷ m) ≡ some p
    → find j m' ≡ some p
unfolding find
add_entry_keeps key j q p m m' ls (ok r) ih e f = ground (arith, ih r)
add_entry_keeps key j q p m m' ls (err x) ih e f = cc
add_entry_keeps key j q p m m' ls panic ih e f = cc

add_polled_keeps :
    (key j : String) (q p : Pod) (m m' : Dict String Pod) (ls : List Pod)
    (polled : Outcome Error Pod) (rest : Outcome Error Entries)
    → is_settled q.status.phase ≡ false
    → is_settled p.status.phase ≡ true
    → ((r : Entries) → rest ≡ ok r → find j m ≡ some p → find j r.0 ≡ some p)
    → add_polled key polled rest ≡ ok (m', ls)
    → find j ((key, q) ∷ m) ≡ some p
    → find j m' ≡ some p
unfolding find
add_polled_keeps key j q p m m' ls (ok q') (ok r) s t ih e f = ground (arith, ih r)
add_polled_keeps key j q p m m' ls (ok q') (err x) s t ih e f = cc
add_polled_keeps key j q p m m' ls (ok q') panic s t ih e f = cc
add_polled_keeps key j q p m m' ls (err x) rest s t ih e f = cc
add_polled_keeps key j q p m m' ls panic rest s t ih e f = cc

get_pods_keeps :
    (h : Host) (j : String) (p : Pod) (m : Dict String Pod) (r : Entries)
    → is_settled p.status.phase ≡ true
    → get_pods_from h m ≡ ok r
    → find j m ≡ some p
    → find j r.0 ≡ some p
unfolding get_pods_from
get_pods_keeps h j p [] r s e f = unfold find in cc
get_pods_keeps h j p ((key, q) ∷ m) (m', ls) s e f = elim (Bool-cases (is_settled q.status.phase)) [
  | inl d ↦
      add_entry_keeps key j q p m m' ls (get_pods_from h m)
        (λ r' e'. get_pods_keeps h j p m r' s e') (rw d at e) f
  | inr d ↦
      add_polled_keeps key j q p m m' ls (create_pod_status_from_container_status h q)
        (get_pods_from h m) d s (λ r' e'. get_pods_keeps h j p m r' s e') (rw d at e) f
]

notify_all-pods : (ls : List Pod) (pr : Provider) → (notify_all ls pr).pods ≡ pr.pods
notify_all-pods [] pr = refl
notify_all-pods (p ∷ ls) pr = notify_all-pods ls (notify p pr)

round_keeps :
    (h : Host) (j : String) (p : Pod) (pr pr' : Provider)
    → is_settled p.status.phase ≡ true
    → notify_pod_statuses h pr ≡ ok pr'
    → find j pr.pods ≡ some p
    → find j pr'.pods ≡ some p
unfolding notify_pod_statuses
round_keeps h j p pr pr' s e f = by_round (get_pods_from h pr.pods) refl e
  where
    by_round :
        (r : Outcome Error Entries)
        → get_pods_from h pr.pods ≡ r
        → (elim r [
          | ok (m, ls) ↦ ok (notify_all ls (record pr { pods = m }))
          | err x ↦ err x
          | panic ↦ panic
        ])
          ≡ ok pr'
        → find j pr'.pods ≡ some p
    by_round (ok (m, ls)) d e' = ground (
      arith,
      notify_all-pods ls (record pr { pods = m }),
      get_pods_keeps h j p pr.pods (m, ls) s d f,
    )
    by_round (err x) d e' = cc
    by_round panic d e' = cc

rounds_keep :
    (hs : List Host) (j : String) (p : Pod) (pr pr' : Provider)
    → is_settled p.status.phase ≡ true
    → status_loop hs pr ≡ ok pr'
    → find j pr.pods ≡ some p
    → find j pr'.pods ≡ some p
unfolding status_loop
rounds_keep [] j p pr pr' s e f = ground arith
rounds_keep (h ∷ hs) j p pr pr' s e f =
    by_round (notify_pod_statuses h pr) refl (λ mid. rounds_keep hs j p mid pr' s) e
  where
    by_round :
        (r : Outcome Error Provider)
        → notify_pod_statuses h pr ≡ r
        → ((mid : Provider)
            → status_loop hs mid ≡ ok pr'
            → find j mid.pods ≡ some p
            → find j pr'.pods ≡ some p)
        → (elim r [ ok mid ↦ status_loop hs mid | err x ↦ status_loop hs pr | panic ↦ panic ])
          ≡ ok pr'
        → find j pr'.pods ≡ some p
    by_round (ok mid) d rest e' = rest mid e' (round_keeps h j p pr mid s d f)
    by_round (err x) d rest e' = rest pr e' f
    by_round panic d rest e' = cc

settled :
    (x : Phase)
    → (x ≡ Phase.failed) ⊎ ((x ≡ Phase.succeeded) ⊎ (x ≡ Phase.pending))
    → is_settled x ≡ true
settled x (inl e) = rw e refl
settled x (inr (inl e)) = rw e refl
settled x (inr (inr e)) = rw e refl

-- A pod that is Failed, Succeeded or Pending stays in the store as it is through any number of
-- rounds of the status loop that do not panic, whatever the hosts answer.
pub status_loop_keeps :
    (hs : List Host) (j : String) (p : Pod) (pr pr' : Provider)
    → (p.status.phase ≡ Phase.failed)
      ⊎ ((p.status.phase ≡ Phase.succeeded) ⊎ (p.status.phase ≡ Phase.pending))
    → status_loop hs pr ≡ ok pr'
    → find j pr.pods ≡ some p
    → find j pr'.pods ≡ some p
status_loop_keeps hs j p pr pr' s = rounds_keep hs j p pr pr' (settled p.status.phase s)
