-- ===== src/Mock/Provider/Create.antt =====
-- CreatePod: what it stores and what it notifies, on success and on an error.
use virtual_kubelet_cmd.Base.{
  String, string_equality, nat_equality, int_equality, true, false, some, List, [], ◌∷◌, ◌≡◌, refl,
  sym, ◌∙◌, ◌==◌, ◌↔◌, Bool-cases, Option-cases, pos, ◌⊎◌, inl, inr, arith, count, length, All,
  ◌++◌, filter_map,
}
use virtual_kubelet_cmd.Base.Dict.{Dict, find, find-insert_self}
use virtual_kubelet_cmd.Base.Outcome.{Outcome, ok, err, panic}
use virtual_kubelet_cmd.Disk.{Disk}
use virtual_kubelet_cmd.Errors.{Error}
use virtual_kubelet_cmd.Host.{Host}
use virtual_kubelet_cmd.Kube.{Container, ContainerStatus, StateTerminated, Phase, Pod}
use virtual_kubelet_cmd.Manager.{ResourceManager}
use virtual_kubelet_cmd.Mock.Command.Parallel.{Sent, run_script_parallel}
use virtual_kubelet_cmd.Mock.Command.Script.{Shell}
use virtual_kubelet_cmd.Mock.Monitor.{has_failed}
use virtual_kubelet_cmd.Mock.Monitor.Counts.{count-All, All-count}
use virtual_kubelet_cmd.Mock.Volumes.Switch.{volume_all, volumes}
use virtual_kubelet_cmd.Mock.Provider.{
  Provider, store, build_key, with_statuses, finish_create, created, create_with_volumes,
  create_with_key, create_pod,
}

abbrev pub EndedBadly : ContainerStatus → Type 0
EndedBadly st =
    (t : StateTerminated) × (st.state.terminated ≡ some t) × ((t.exit_code == pos 0) ≡ false)

EndedBadly-of : (st : ContainerStatus) → has_failed st ≡ true → EndedBadly st
EndedBadly-of st e = elim (Option-cases st.state.terminated) [
  | inl p ↦ ground (arith, p, e)
  | inr (t, p) ↦ (t, p, ground (arith, p, e))
]

of_EndedBadly : (st : ContainerStatus) → EndedBadly st → has_failed st ≡ true
of_EndedBadly st (t, p, z) = ground (arith, p, z)

All-weaken :
    (P Q : ContainerStatus → Type 0) (sts : List ContainerStatus)
    → ((st : ContainerStatus) → P st → Q st)
    → All P sts
    → All Q sts
All-weaken P Q [] k a = tt
All-weaken P Q (st ∷ sts) k (p, a) = (k st p, All-weaken P Q sts k a)

-- Every status is a terminated one with a non-zero exit code.
abbrev pub AllBad : Pod → Type 0
AllBad p = All EndedBadly p.status.container_statuses

-- What CreatePod makes of a pod `p` when it succeeds and the goroutines have sent `sent`.
pub record IsCreated (key : String) (p : Pod) (sent : List Sent) (pr pr' : Provider) (q : Pod)
    : Type 0 where
  pub same_but_status : q ≡ record p { status = q.status }
  pub all_statuses :
      q.status.container_statuses
      ≡ p.status.container_statuses ++ filter_map (λ (s : Sent). s.status) sent
  pub stored : find key pr'.pods ≡ some q
  pub notified_once : pr'.notified ≡ q ∷ pr.notified
  pub failed_iff : (q.status.phase ≡ Phase.failed) ↔ AllBad q
  pub running_iff : (q.status.phase ≡ Phase.running) ↔ (¬ AllBad q)

All-bad_iff :
    (sts : List ContainerStatus)
    → ((count has_failed sts == length sts) ≡ true) ↔ All EndedBadly sts
All-bad_iff sts = (
  λ e.
      All-weaken (λ st. has_failed st ≡ true) EndedBadly sts EndedBadly-of
        (count-All has_failed sts ((nat_equality.same_iff _ _).0 e)),
  λ h. (nat_equality.same_iff _ _).1 (
      All-count has_failed sts
        (All-weaken EndedBadly (λ st. has_failed st ≡ true) sts of_EndedBadly h)),
)

finish_create_phase :
    (h : Host) (p : Pod)
    → (((finish_create h p).status.phase ≡ Phase.failed) ↔ AllBad (finish_create h p))
      × (((finish_create h p).status.phase ≡ Phase.running) ↔ (¬ AllBad (finish_create h p)))
unfolding finish_create
finish_create_phase h p =
    let sts = p.status.container_statuses in
    elim (Bool-cases (count has_failed sts == length sts)) [
      | inl e ↦ rw e (
        (λ f. (All-bad_iff sts).0 e, λ b. refl),
        (λ f. cc, λ n. absurd (n ((All-bad_iff sts).0 e))),
      )
      | inr e ↦ rw e (
        (λ f. cc, λ b. let x : false ≡ true = sym e ∙ (All-bad_iff sts).1 b in cc),
        (λ f b. let x : false ≡ true = sym e ∙ (All-bad_iff sts).1 b in cc, λ n. refl),
      )
    ]

-- The end of CreatePod changes nothing of the pod but its status, and no container status.
finish_create_keeps :
    (h : Host) (p : Pod)
    → (finish_create h p ≡ record p { status = (finish_create h p).status })
      × ((finish_create h p).status.container_statuses ≡ p.status.container_statuses)
unfolding finish_create
finish_create_keeps h p =
    elim (Bool-cases
      (count has_failed p.status.container_statuses == length p.status.container_statuses)) [
        | inl e ↦ rw e (refl, refl)
        | inr e ↦ rw e (refl, refl)
      ]

created_ok :
    (h : Host) (key : String) (p : Pod) (pr pr' : Provider) (r : Outcome Error (List Sent))
    → created h key p pr r ≡ (ok tt, pr')
    → (q : Pod) × (sent : List Sent) × (r ≡ ok sent) × IsCreated key p sent pr pr' q
created_ok h key p pr pr' (ok sent) e =
    let q = finish_create h (with_statuses sent p) in
    let (f, r) = finish_create_phase h (with_statuses sent p) in
    let (k, l) = finish_create_keeps h (with_statuses sent p) in
    (
      q,
      sent,
      refl,
      record {
        same_but_status = k;
        all_statuses = l;
        stored = ground (arith, find-insert_self key q pr.pods);
        notified_once = ground arith;
        failed_iff = f;
        running_iff = r;
      },
    )
created_ok h key p pr pr' (err x) e = cc
created_ok h key p pr pr' panic e = cc

created_err :
    (h : Host) (key : String) (p : Pod) (pr pr' : Provider) (x : Error)
    (r : Outcome Error (List Sent))
    → created h key p pr r ≡ (err x, pr')
    → pr' ≡ pr
created_err h key p pr pr' x (ok sent) e = cc
created_err h key p pr pr' x (err y) e = ground arith
created_err h key p pr pr' x panic e = cc

module _ (h : Host) (d : Disk) (sh : Shell) (rm : ResourceManager) (order : List Container) where
  with_volumes_ok :
      (key : String) (p : Pod) (pr pr' : Provider) (v : Outcome Error (Dict String String))
      → create_with_volumes h d sh rm order key p (store key p pr) v ≡ (ok tt, pr')
      → (q : Pod) × (vol : Dict String String) × (sent : List Sent) × (v ≡ ok vol)
        × (run_script_parallel h d sh p h.now vol order ≡ ok sent)
        × IsCreated key p sent pr pr' q
  with_volumes_ok key p pr pr' (ok vol) e =
      let (q, sent, ran, c) =
        created_ok h key p (store key p pr) pr' (run_script_parallel h d sh p h.now vol order) e in
      (
        q,
        vol,
        sent,
        refl,
        ran,
        record {
          same_but_status = c.same_but_status;
          all_statuses = c.all_statuses;
          stored = c.stored;
          notified_once = c.notified_once;
          failed_iff = c.failed_iff;
          running_iff = c.running_iff;
        },
      )
  with_volumes_ok key p pr pr' (err x) e = cc
  with_volumes_ok key p pr pr' panic e = cc

  -- A CreatePod that returns no error has set up the volumes and run the goroutines of the containers,
  -- has stored the pod under its key and has called the notifier once, with the pod as it is stored.
  -- This is the pod that was given but for its status, which has the container statuses that it had
  -- and behind them those that the goroutines sent. It is Failed exactly when every container status in
  -- it is a terminated one with a non-zero exit code, and Running exactly when not.
  pub create_pod_ok :
      (key : String) (p : Pod) (pr pr' : Provider)
      → build_key p ≡ ok key
      → create_pod h d sh rm order p pr ≡ (ok tt, pr')
      → (q : Pod) × (vol : Dict String String) × (sent : List Sent) × ((volumes h d p rm volume_all
            []).0
          ≡ ok vol)
        × (run_script_parallel h d sh p h.now vol order ≡ ok sent)
        × IsCreated key p sent pr pr' q
  unfolding create_pod
  create_pod_ok key p pr pr' k e =
      with_volumes_ok key p pr pr' (volumes h d p rm volume_all []).0 (rw k at e)

  with_volumes_err :
      (key : String) (p : Pod) (pr pr' : Provider) (x : Error)
      (v : Outcome Error (Dict String String))
      → create_with_volumes h d sh rm order key p (store key p pr) v ≡ (err x, pr')
      → pr' ≡ store key p pr
  with_volumes_err key p pr pr' x (ok vol) e =
      created_err h key p (store key p pr) pr' x (run_script_parallel h d sh p h.now vol order) e
  with_volumes_err key p pr pr' x (err y) e = ground arith
  with_volumes_err key p pr pr' x panic e = cc

  with_key_err :
      (p : Pod) (pr pr' : Provider) (x : Error) (k : Outcome Error String)
      → build_key p ≡ k
      → create_with_key h d sh rm order p pr k ≡ (err x, pr')
      → (pr'.notified ≡ pr.notified)
        × (((pr' ≡ pr) × (build_key p ≡ err x))
            ⊎ ((key : String) × (build_key p ≡ ok key) × (find key pr'.pods ≡ some p)))
  with_key_err p pr pr' x (ok key) k e =
      let kept = with_volumes_err key p pr pr' x (volumes h d p rm volume_all []).0 e in
      rw kept (refl, inr (key, k, find-insert_self key p pr.pods))
  with_key_err p pr pr' x (err y) k e = (ground arith, inl (ground arith, ground arith))
  with_key_err p pr pr' x panic k e = cc

  -- A CreatePod that returns an error has called no notifier. Its pod is in the store all the same,
  -- as it was given, if it has a key; without a key the provider is as before.
  pub create_pod_err :
      (p : Pod) (pr pr' : Provider) (x : Error)
      → create_pod h d sh rm order p pr ≡ (err x, pr')
      → (pr'.notified ≡ pr.notified)
        × (((pr' ≡ pr) × (build_key p ≡ err x))
            ⊎ ((key : String) × (build_key p ≡ ok key) × (find key pr'.pods ≡ some p)))
  unfolding create_pod
  create_pod_err p pr pr' x e = with_key_err p pr pr' x (build_key p) refl e
