-- ===== src/Mock/Monitor/PodPhase.antt =====
-- The phase that createPodStatusFromContainerStatus gives a pod.
use virtual_kubelet_cmd.Base.{
  String, string_equality, Bool, true, false, Option, none, some, List, [], ◌∷◌, ◌==◌, int_equality,
  nat_equality, ◌≡◌, refl, ◌∙◌, ◌↔◌, inl, inr, subst, arith, length, count, All, map, ◌⊎◌,
}
use virtual_kubelet_cmd.Base.Dict.{find}
use virtual_kubelet_cmd.Base.Outcome.{ok}
use virtual_kubelet_cmd.Host.{Host}
use virtual_kubelet_cmd.Kube.{Time, Container, ContainerStatus, Phase, Pod}
use virtual_kubelet_cmd.Mock.Monitor.{
  create_pod_status_from_container_status, check_terminated_container, has_terminated, has_failed,
  assemble, Previous, poll_containers, no_previous, phase_of,
}
use virtual_kubelet_cmd.Mock.Monitor.Poll.{polled, poll_containers-map}
use virtual_kubelet_cmd.Mock.Monitor.Counts.{
  EndedWell, HasEnded, count-All, All-count, count_none, EndedWell-of, of_EndedWell,
}

-- A poll of the pod that does not panic.
abbrev pub Polls : Host → Pod → Pod → Type 0
Polls h p q = create_pod_status_from_container_status {E = Unit {0}} h p ≡ ok q

-- What a poll that does not panic reads, and what it leaves.
record Assembled (p q : Pod) (checked : Bool × Bool) (new : List ContainerStatus) : Type 0 where
  statuses : q.status.container_statuses ≡ new
  phase : q.status.phase ≡ phase_of checked
  same_start : q.status.start_time ≡ p.status.start_time
  same_containers : q.containers ≡ p.containers

assemble_fields :
    (h : Host) (p q : Pod) (checked : Bool × Bool) (new : List ContainerStatus × Previous)
    (start : Option Time) (cs : List Container)
    → p.status.start_time ≡ start
    → assemble {E = Unit {0}} h p checked new start cs ≡ ok q
    → Assembled p q checked new.0
unfolding assemble
assemble_fields h p q checked new none cs s e = cc
assemble_fields h p q checked new (some start) [] s e = cc
assemble_fields h p q checked new (some start) (c ∷ cs) s e = record {
  statuses = ground arith;
  phase = ground arith;
  same_start = ground arith;
  same_containers = ground arith;
}

no_previous_exit : (j : String) → find j no_previous.exit_code ≡ none
unfolding find
no_previous_exit j = refl

poll_fields :
    (h : Host) (p q : Pod)
    → Polls h p q
    → Assembled p q
        (check_terminated_container p.status.container_statuses)
        (map (polled h p.status.container_statuses) p.containers)
unfolding create_pod_status_from_container_status
poll_fields h p q e =
    subst (Assembled p q (check_terminated_container p.status.container_statuses))
      (poll_containers-map h p.status.container_statuses p.containers no_previous
        (λ j st found. inl (no_previous_exit j)))
      (assemble_fields h p q (check_terminated_container p.status.container_statuses)
        (poll_containers h p.status.container_statuses p.containers no_previous) p.status.start_time
        p.containers refl e)

-- Each container of a pod whose poll does not panic gets the status that one poll makes of its
-- status before, and the zero status where it had none.
pub poll_statuses :
    (h : Host) (p q : Pod)
    → Polls h p q
    → q.status.container_statuses ≡ map (polled h p.status.container_statuses) p.containers
poll_statuses h p q e = (poll_fields h p q e).statuses

pub poll_same_containers : (h : Host) (p q : Pod) → Polls h p q → q.containers ≡ p.containers
poll_same_containers h p q e = (poll_fields h p q e).same_containers

-- The three phases, from what the two tests decide.
phase_by :
    (a b : Bool) {E W : Type 0}
    → ((a ≡ true) ↔ E)
    → (E → (b ≡ true) ↔ W)
    → (W → E)
    → ((phase_of (a, b) ≡ Phase.succeeded) ↔ W)
      × ((phase_of (a, b) ≡ Phase.failed) ↔ (E × (¬ W)))
      × ((phase_of (a, b) ≡ Phase.running) ↔ (¬ E))
phase_by true true ended well sub = (
  (λ e. (well (ended.0 refl)).0 refl, λ w. refl),
  (λ e. cc, λ p. absurd (p.1 ((well (ended.0 refl)).0 refl))),
  (λ e. cc, λ n. absurd (n (ended.0 refl))),
)
phase_by true false ended well sub = (
  (λ e. cc, λ w. let f : false ≡ true = (well (sub w)).1 w in cc),
  (λ e. (ended.0 refl, λ w. let f : false ≡ true = (well (sub w)).1 w in cc), λ p. refl),
  (λ e. cc, λ n. absurd (n (ended.0 refl))),
)
phase_by false b ended well sub = (
  (λ e. cc, λ w. let f : false ≡ true = ended.1 (sub w) in cc),
  (λ e. cc, λ p. let f : false ≡ true = ended.1 p.0 in cc),
  (λ e k. let f : false ≡ true = ended.1 k in cc, λ n. refl),
)

All-ended :
    (sts : List ContainerStatus)
    → ((count has_terminated sts == length sts) ≡ true) ↔ All HasEnded sts
All-ended sts = (
  λ e. count-All has_terminated sts ((nat_equality.same_iff _ _).0 e),
  λ h. (nat_equality.same_iff _ _).1 (All-count has_terminated sts h),
)

All-well :
    (sts : List ContainerStatus)
    → All HasEnded sts
    → ((count has_failed sts == 0) ≡ true) ↔ All EndedWell sts
All-well sts h = (
  λ e. EndedWell-of sts h ((count_none has_failed sts).0 ((nat_equality.same_iff _ _).0 e)),
  λ w. (nat_equality.same_iff _ _).1 ((count_none has_failed sts).1 (of_EndedWell sts w).1),
)

-- A poll that does not panic makes a pod Succeeded exactly when all its container statuses of
-- before had terminated with exit code 0, Failed exactly when all had terminated and not all with
-- 0, and Running exactly when not all had terminated.
pub poll_phase :
    (h : Host) (p q : Pod)
    → Polls h p q
    → ((q.status.phase ≡ Phase.succeeded) ↔ All EndedWell p.status.container_statuses)
      × ((q.status.phase ≡ Phase.failed) ↔ (
          All HasEnded p.status.container_statuses × (¬ All EndedWell p.status.container_statuses)))
      × ((q.status.phase ≡ Phase.running) ↔ (¬ All HasEnded p.status.container_statuses))
unfolding check_terminated_container
poll_phase h p q e =
    let old = p.status.container_statuses in
    rw ((poll_fields h p q e).phase)
      (phase_by _ _ (All-ended old) (All-well old) (λ w. (of_EndedWell old w).0))

All-ended_map :
    (h : Host) (old : List ContainerStatus) (cs : List Container)
    → All (λ c. HasEnded (polled h old c)) cs
    → All HasEnded (map (polled h old) cs)
All-ended_map h old [] a = tt
All-ended_map h old (c ∷ cs) (e, a) = (e, All-ended_map h old cs a)

phase_cases :
    (checked : Bool × Bool)
    → (phase_of checked ≡ Phase.running)
      ⊎ ((phase_of checked ≡ Phase.succeeded) ⊎ (phase_of checked ≡ Phase.failed))
phase_cases (true, true) = inr (inl refl)
phase_cases (true, false) = inr (inr refl)
phase_cases (false, b) = inl refl

-- When a poll that does not panic is made where every container of the pod is found terminated,
-- the next poll that does not panic leaves the pod Succeeded or Failed.
pub two-Polls_end :
    (h h' : Host) (p q r : Pod)
    → All (λ c. HasEnded (polled h p.status.container_statuses c)) p.containers
    → Polls h p q
    → Polls h' q r
    → (r.status.phase ≡ Phase.succeeded) ⊎ (r.status.phase ≡ Phase.failed)
two-Polls_end h h' p q r gone first second =
    elim (phase_cases (check_terminated_container q.status.container_statuses)) [
      | inl e ↦
          absurd ((poll_phase h' q r second).2.0 ((poll_fields h' q r second).phase ∙ e) ended)
      | inr d ↦ elim d [
        | inl e ↦ inl ((poll_fields h' q r second).phase ∙ e)
        | inr e ↦ inr ((poll_fields h' q r second).phase ∙ e)
      ]
    ]
  where
    ended : All HasEnded q.status.container_statuses
    ended =
        rw (poll_statuses h p q first)
          (All-ended_map h p.status.container_statuses p.containers gone)
