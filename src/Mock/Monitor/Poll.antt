-- ===== src/Mock/Monitor/Poll.antt =====
-- The polls of monitor.go without their maps: what one poll makes of one container status.
use virtual_kubelet_cmd.Base.{
  String, Option, none, some, List, [], ◌∷◌, pos, ◌==◌, int_equality, string_equality, nat_equality,
  if◌then◌else◌, ◌≡◌, refl, ap, map, Option-cases, Bool-cases, inl, inr, arith, ◌⊎◌,
}
use virtual_kubelet_cmd.Base.Dict.{find, insert, find-insert, find-insert_self}
use virtual_kubelet_cmd.Host.{Host}
use virtual_kubelet_cmd.Kube.{Container, StateRunning, StateTerminated, ContainerStatus}
use virtual_kubelet_cmd.Mock.Monitor.{
  Previous, create_container_status, terminated_with, observe, remember, remember_state,
  create_container_status_from_process_status, status_named, poll_containers, zero_status,
}

-- A status with exit code 1 stays; any other is looked at again.
unfoldable pub next_of :
    Host
    → Container
    → ContainerStatus
    → Option StateRunning
    → Option StateTerminated
    → ContainerStatus
next_of h c st (some r) t = observe h c r.started_at h.now st.container_id st.image_id
next_of h c st none (some t) =
    if t.exit_code == pos 1
    then create_container_status c (terminated_with (record t { exit_code = pos 1 }))
        st.container_id st.image_id
    else observe h c t.started_at t.finished_at st.container_id st.image_id
next_of h c st none none = observe h c h.now h.now st.container_id st.image_id

unfoldable pub next_status : Host → Container → ContainerStatus → ContainerStatus
unfolding next_of
next_status h c st = next_of h c st st.state.running st.state.terminated

-- No exit code is kept in the maps for a container whose status is not a terminated one.
abbrev Ended : Option StateRunning → Option StateTerminated → Type 0
Ended (some r) t = ⊥
Ended none none = ⊥
Ended none (some t) = Unit

abbrev Kept : String → Previous → ContainerStatus → Type 0
Kept name prev st = (find name prev.exit_code ≡ none) ⊎ Ended st.state.running st.state.terminated

abbrev IsFresh : List ContainerStatus → Previous → Type 0
IsFresh old prev =
    (j : String) (st : ContainerStatus) → status_named j old ≡ some st → Kept j prev st

create-remember_state :
    (h : Host) (c : Container) (st : ContainerStatus) (prev : Previous) (r : Option StateRunning)
    (t : Option StateTerminated)
    → (find c.name prev.exit_code ≡ none) ⊎ Ended r t
    → create_container_status_from_process_status h c (
        remember_state h c.name r t (record prev {
          image_ids = insert c.name st.image_id prev.image_ids;
          pgids = insert c.name st.container_id prev.pgids;
        }))
      ≡ next_of h c st r t
unfolding remember_state create_container_status_from_process_status next_of
create-remember_state h c st prev (some r) t (inl e) = simp (e, find-insert_self)
create-remember_state h c st prev none (some t) e = simp find-insert_self
create-remember_state h c st prev none none (inl e) = simp (e, find-insert_self)
create-remember_state h c st prev (some r) t (inr e) = absurd e
create-remember_state h c st prev none none (inr e) = absurd e

create-remember :
    (h : Host) (c : Container) (st : ContainerStatus) (prev : Previous)
    → Kept c.name prev st
    → create_container_status_from_process_status h c (remember h c.name st prev)
      ≡ next_status h c st
unfolding remember next_status
create-remember h c st prev kept =
    create-remember_state h c st prev st.state.running st.state.terminated kept

abbrev pub advance : Host → Container → Option ContainerStatus → ContainerStatus
advance h c none = zero_status
advance h c (some st) = next_status h c st

-- What the loops of createPodStatusFromContainerStatus compute for one container.
abbrev pub polled : Host → List ContainerStatus → Container → ContainerStatus
polled h old c = advance h c (status_named c.name old)

remember_state-Kept :
    (h : Host) (name j : String) (st : ContainerStatus) (prev : Previous) (r : Option StateRunning)
    (t : Option StateTerminated)
    → Kept j prev st
    → (name ≡ j → (st.state.running ≡ r) × (st.state.terminated ≡ t))
    → Kept j (remember_state h name r t prev) st
unfolding remember_state
remember_state-Kept h name j st prev (some r) t k same = k
remember_state-Kept h name j st prev none none k same = k
remember_state-Kept h name j st prev none (some t) k same = elim (Bool-cases (name == j)) [
  | inl e ↦
      let (none_running, some_terminated) = same ((string_equality.same_iff name j).0 e) in
      inr (rw (none_running, some_terminated) tt)
  | inr e ↦ rw (find-insert, e) k
]

status_named-some :
    (j name : String) (old : List ContainerStatus) {st st' : ContainerStatus}
    → status_named name old ≡ some st
    → status_named j old ≡ some st'
    → name ≡ j
    → (st'.state.running ≡ st.state.running) × (st'.state.terminated ≡ st.state.terminated)
status_named-some j name old p q e = ground arith

remember-IsFresh :
    (h : Host) (old : List ContainerStatus) (name : String) (st : ContainerStatus) (prev : Previous)
    → status_named name old ≡ some st
    → IsFresh old prev
    → IsFresh old (remember h name st prev)
unfolding remember
remember-IsFresh h old name st prev e fresh j st' e' =
    remember_state-Kept h name j st' _ st.state.running st.state.terminated (fresh j st' e')
      (status_named-some j name old e e')

-- The loops over the containers and their statuses, without the maps.
pub poll_containers-map :
    (h : Host) (old : List ContainerStatus) (cs : List Container) (prev : Previous)
    → IsFresh old prev
    → (poll_containers h old cs prev).0 ≡ map (polled h old) cs
unfolding poll_containers
poll_containers-map h old [] prev fresh = refl
poll_containers-map h old (c ∷ cs) prev fresh = elim (Option-cases (status_named c.name old)) [
  | inl e ↦ rw (e, poll_containers) (ap (◌∷◌ zero_status) (poll_containers-map h old cs prev fresh))
  | inr (st, e) ↦
      rw (e, poll_containers)
        (rw (create-remember h c st prev (fresh c.name st e)) (
          ap (◌∷◌ (next_status h c st))
            (poll_containers-map h old cs _ (remember-IsFresh h old c.name st prev e fresh))))
]
