-- ===== src/Mock/Lifecycle/Specs.antt =====
-- What the store of the provider promises over the life of pods, the statuses and the deletion
-- timestamps forgotten.
use virtual_kubelet_cmd.Base.{
  String, string_equality, none, some, Option, List, [], ◌∷◌, ◌≡◌, ◌++◌, refl, sym, ap, ◌∙◌, ◌==◌,
  Bool-cases, inl, inr, count, length, nat_equality, subst,
}
use virtual_kubelet_cmd.Base.Dict.{Dict, find, insert, erase, insert-insert}
use virtual_kubelet_cmd.Base.Outcome.{Outcome, ok, err, panic, Ensures-bind}
use virtual_kubelet_cmd.Disk.{Disk}
use virtual_kubelet_cmd.Errors.{Error, not_found}
use virtual_kubelet_cmd.Host.{Host}
use virtual_kubelet_cmd.Kube.{Container, Pod}
use virtual_kubelet_cmd.Manager.{ResourceManager}
use virtual_kubelet_cmd.Mock.Command.Parallel.{Sent, run_script_parallel}
use virtual_kubelet_cmd.Mock.Command.Script.{Shell}
use virtual_kubelet_cmd.Mock.Kill.{Signals, delete_containers}
use virtual_kubelet_cmd.Mock.Lifecycle.{
  Event, creates, updates, deletes, polls, left_by, run_event, run_events,
}
use virtual_kubelet_cmd.Mock.Monitor.{has_failed}
use virtual_kubelet_cmd.Mock.Provider.{
  Provider, notify, store, build_key, with_statuses, finish_create, created, create_with_volumes,
  create_with_key, create_pod, mark_deleted, update_pod, delete_pod,
}
use virtual_kubelet_cmd.Mock.Volumes.Switch.{volume_all, volumes}
use virtual_kubelet_cmd.Mock.Lifecycle.Abstract.{
  spec_of, specs, keyed, replay_event, replay_events, specs-insert, specs-erase, erase_absent,
}
use virtual_kubelet_cmd.Mock.Lifecycle.Polled.{SameSpec, Leaves, polls-Leaves}

finish_create-SameSpec : (h : Host) (p : Pod) → SameSpec p (finish_create h p)
unfolding finish_create
finish_create-SameSpec h p =
    elim (Bool-cases
      (count has_failed p.status.container_statuses == length p.status.container_statuses)) [
        | inl e ↦ rw e refl
        | inr e ↦ rw e refl
      ]

-- Whatever CreatePod comes to once the pod is stored, its spec stays under the key.
created-Leaves :
    (h : Host) (key : String) (p : Pod) (stored : Provider) (m : Dict String Pod)
    (r : Outcome Error (List Sent))
    → specs stored.pods ≡ insert key (spec_of p) m
    → Leaves (insert key (spec_of p) m) (left_by (created h key p stored r))
created-Leaves h key p stored m (ok sent) e =
    let done = finish_create h (with_statuses sent p) in
    let same : spec_of done ≡ spec_of p = finish_create-SameSpec h (with_statuses sent p) in
    specs-insert key done stored.pods ∙ rw (same, e) (insert-insert key (spec_of p) (spec_of p) m)
created-Leaves h key p stored m (err x) e = e
created-Leaves h key p stored m panic e = tt

module _ (h : Host) (d : Disk) (sh : Shell) (rm : ResourceManager) (order : List Container) where
  with_volumes-Leaves :
      (key : String) (p : Pod) (stored : Provider) (m : Dict String Pod)
      (v : Outcome Error (Dict String String))
      → specs stored.pods ≡ insert key (spec_of p) m
      → Leaves
          (insert key (spec_of p) m)
          (left_by (create_with_volumes h d sh rm order key p stored v))
  with_volumes-Leaves key p stored m (ok vol) e =
      created-Leaves h key p stored m (run_script_parallel h d sh p h.now vol order) e
  with_volumes-Leaves key p stored m (err x) e = e
  with_volumes-Leaves key p stored m panic e = tt

  with_key-Leaves :
      (p : Pod) (pr : Provider) (k : Outcome Error String)
      → Leaves
          (keyed k (λ key. insert key (spec_of p)) (specs pr.pods))
          (left_by (create_with_key h d sh rm order p pr k))
  with_key-Leaves p pr (ok key) =
      with_volumes-Leaves key p (store key p pr) (specs pr.pods) (volumes h d p rm volume_all []).0
        (specs-insert key p pr.pods)
  with_key-Leaves p pr (err x) = refl
  with_key-Leaves p pr panic = tt

updates-Leaves :
    (p : Pod) (pr : Provider)
    → Leaves (replay_event (updates p) (specs pr.pods)) (run_event (updates p) pr)
unfolding run_event update_pod
updates-Leaves p pr = from (build_key p)
  where
    from :
        (k : Outcome Error String)
        → Leaves (keyed k (λ key. insert key (spec_of p)) (specs pr.pods)) (
            left_by (elim k as (λ _. Outcome Error (Unit {0}) × Provider) [
              | err e ↦ (err e, pr)
              | panic ↦ (panic, pr)
              | ok key ↦ (ok tt, notify p (store key p pr))
            ]))
    from (ok key) = specs-insert key p pr.pods
    from (err e) = refl
    from panic = tt

module _ (h : Host) (d : Disk) (os : Signals) (p : Pod) (pr : Provider) where
  -- DeletePod behind the key, and behind the look-up.
  abbrev deleted : String → Option Pod → Outcome Error (Unit {0}) × Provider
  deleted key o = elim o [
    | none ↦ (err (not_found "Pod not found"), pr)
    | some old ↦ (
      ok tt,
      notify (mark_deleted h.now p) (record pr {
        pods = erase key pr.pods;
        acts = pr.acts ++ delete_containers h os d p p.status.container_statuses;
      }),
    )
  ]

  deleted-Leaves :
      (key : String) (o : Option Pod)
      → find key pr.pods ≡ o
      → Leaves (erase key (specs pr.pods)) (left_by (deleted key o))
  deleted-Leaves key none e = sym (ap specs (erase_absent key pr.pods e)) ∙ specs-erase key pr.pods
  deleted-Leaves key (some old) e = specs-erase key pr.pods

  deletes-Leaves :
      Leaves (replay_event (deletes h d os p) (specs pr.pods)) (run_event (deletes h d os p) pr)
  unfolding run_event delete_pod
  deletes-Leaves = from (build_key p)
    where
      from :
          (k : Outcome Error String)
          → Leaves (keyed k erase (specs pr.pods)) (
              left_by (elim k as (λ _. Outcome Error (Unit {0}) × Provider) [
                | err e ↦ (err e, pr)
                | panic ↦ (panic, pr)
                | ok key ↦ deleted key (find key pr.pods)
              ]))
      from (ok key) = deleted-Leaves key (find key pr.pods) refl
      from (err e) = refl
      from panic = tt

event-Leaves :
    (e : Event) (pr : Provider) → Leaves (replay_event e (specs pr.pods)) (run_event e pr)
unfolding run_event create_pod
event-Leaves (creates h d sh rm order p) pr = with_key-Leaves h d sh rm order p pr (build_key p)
event-Leaves (updates p) pr = updates-Leaves p pr
event-Leaves (deletes h d os p) pr = deletes-Leaves h d os p pr
event-Leaves (polls h) pr = polls-Leaves h pr

events-Leaves :
    (es : List Event) (pr : Provider) → Leaves (replay_events es (specs pr.pods)) (run_events es pr)
unfolding run_events
events-Leaves [] pr = refl
events-Leaves (e ∷ es) pr =
    Ensures-bind (λ pr'. specs pr'.pods ≡ replay_event e (specs pr.pods)) _ (run_event e pr)
      (run_events es) (event-Leaves e pr)
      (λ pr' q.
        subst (λ m. Leaves (replay_events es m) (run_events es pr')) q (events-Leaves es pr'))

-- In any run of CreatePod, UpdatePod, DeletePod and rounds of statusLoop that does not panic, the
-- store without the statuses and deletion timestamps of its pods is what the same calls make of a
-- plain map: CreatePod, also where it fails, and UpdatePod write the pod as it was given but for
-- its status and deletion timestamp under its key, DeletePod erases the key, and the rounds change
-- nothing but statuses and deletion timestamps. A call without a key changes nothing either.
pub run_events-replay_events :
    (es : List Event) (pr pr' : Provider)
    → run_events es pr ≡ ok pr'
    → specs pr'.pods ≡ replay_events es (specs pr.pods)
run_events-replay_events es pr pr' e =
    subst (Leaves (replay_events es (specs pr.pods))) e (events-Leaves es pr)
