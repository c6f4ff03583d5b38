-- ===== src/Mock/Monitor/Sticky.antt =====
-- Which container states last: the polls of createContainerStatusFromProcessStatus in a row.
use virtual_kubelet_cmd.Base.{
  Bool, true, false, ℤ, Option, none, some, List, [], ◌∷◌, pos, ◌==◌, int_equality, nat_equality,
  ◌≡◌, refl, sym, ◌∙◌, ◌⊎◌, ◌↔◌, Bool-cases, inl, inr, arith, is_some, ℕ, String, string_equality,
  map, subst,
}
use virtual_kubelet_cmd.Host.{Host}
use virtual_kubelet_cmd.Kube.{Container, StateRunning, StateTerminated, ContainerStatus, Pod}
use virtual_kubelet_cmd.Mock.Process.{get_process_status}
use virtual_kubelet_cmd.Mock.Monitor.{
  create_container_status, terminated_with, observe, determine_container_status, all_zombies,
  status_named,
}
use virtual_kubelet_cmd.Mock.Monitor.Poll.{next_status, next_of, advance, polled}
use virtual_kubelet_cmd.Mock.Monitor.PodPhase.{Polls, poll_statuses, poll_same_containers}

next_status_sticky :
    (h : Host) (c : Container) (st : ContainerStatus) (t : StateTerminated)
    → st.state ≡ terminated_with t
    → t.exit_code ≡ pos 1
    → (next_status h c st).state ≡ terminated_with t
unfolding next_status next_of create_container_status
next_status_sticky h c st t e code = ground arith

-- The status is one that the early return keeps.
abbrev pub is_kept_state : Option StateRunning → Option StateTerminated → Bool
is_kept_state (some r) t = false
is_kept_state none (some t) = t.exit_code == pos 1
is_kept_state none none = false

abbrev pub is_kept : ContainerStatus → Bool
is_kept st = is_kept_state st.state.running st.state.terminated

-- The host lists its processes, the stderr file is there, and a process of the container's group is
-- no zombie.
abbrev pub Alive : Host → ContainerStatus → Type 0
Alive h st =
    (pids : List ℤ) × (h.pids ≡ some pids)
    × (is_some (h.file_size (h.path_join (h.path_dir st.image_id ∷ "stderr" ∷ []))) ≡ true)
    × (all_zombies (get_process_status h pids st.container_id) ≡ false)

-- The containers of a pod and their new statuses, in order.
abbrev pub AreEach :
    (Container → ContainerStatus → Type 0) → List Container → List ContainerStatus → Type 0
AreEach R [] [] = Unit
AreEach R (c ∷ cs) (new ∷ news) = R c new × AreEach R cs news
AreEach R _ _ = ⊥

-- The container runs exactly when the status that it had is not kept and it is alive.
abbrev pub RunsIfAlive : Host → List ContainerStatus → Container → ContainerStatus → Type 0
RunsIfAlive h old c new =
    (st : ContainerStatus)
    → status_named c.name old ≡ some st
    → (is_some new.state.running ≡ true) ↔ ((is_kept st ≡ false) × Alive h st)

-- The pod has been polled any number of times, at the hosts of a list, without a panic.
abbrev pub HasPolled : List Host → Pod → Pod → Type 0
HasPolled [] p q = p ≡ q
HasPolled (h ∷ hs) p r = (q : Pod) × Polls h p q × HasPolled hs q r

-- The status of this name has terminated so.
abbrev pub HasTerminated : String → StateTerminated → List ContainerStatus → Type 0
HasTerminated name t sts =
    (st : ContainerStatus) × (status_named name sts ≡ some st) × (st.state ≡ terminated_with t)

abbrev pub IsNamed : String → List Container → Type 0
IsNamed name [] = ⊥
IsNamed name (c ∷ cs) = (c.name ≡ name) ⊎ IsNamed name cs

observe-name :
    (h : Host) (c : Container) (start finish : ℕ) (pgid image : String)
    → (observe h c start finish pgid image).name ≡ c.name
unfolding observe determine_container_status create_container_status
observe-name h c start finish pgid image = ground arith

next_of-name :
    (h : Host) (c : Container) (st : ContainerStatus) (r : Option StateRunning)
    (t : Option StateTerminated)
    → (next_of h c st r t).name ≡ c.name
unfolding next_of create_container_status
next_of-name h c st (some r) t = observe-name h c _ _ _ _
next_of-name h c st none none = observe-name h c _ _ _ _
next_of-name h c st none (some t) = elim (Bool-cases (t.exit_code == pos 1)) [
  | inl e ↦ rw e refl
  | inr e ↦ rw e (observe-name h c _ _ _ _)
]

-- The name of a new status: that of the container, or none.
advance-name :
    (h : Host) (c : Container) (o : Option ContainerStatus)
    → ((advance h c o).name ≡ c.name) ⊎ ((advance h c o).name ≡ "")
unfolding next_status
advance-name h c none = inr refl
advance-name h c (some st) = inl (next_of-name h c st st.state.running st.state.terminated)

other_name :
    (new name : String) (c : Container)
    → (c.name == name) ≡ false
    → ("" == name) ≡ false
    → (new ≡ c.name) ⊎ (new ≡ "")
    → (new == name) ≡ false
other_name new name c e f (inl q) = rw q e
other_name new name c e f (inr q) = rw q f

module _ (h : Host) (old : List ContainerStatus) (name : String) (t : StateTerminated) where
  here_sticky :
      (c : Container) (rest : List ContainerStatus) (st : ContainerStatus)
      → (c.name == name) ≡ true
      → status_named name old ≡ some st
      → st.state ≡ terminated_with t
      → t.exit_code ≡ pos 1
      → HasTerminated name t (polled h old c ∷ rest)
  unfolding status_named next_status
  here_sticky c rest st e found q code =
      let same = (string_equality.same_iff c.name name).0 e in
      let own : status_named c.name old ≡ some st =
        subst (λ n. status_named n old ≡ some st) (sym same) found in
      let new_name : (next_status h c st).name ≡ name =
        next_of-name h c st st.state.running st.state.terminated ∙ same in
      rw own (
        next_status h c st,
        rw ((string_equality.same_iff (next_status h c st).name name).1 new_name) refl,
        next_status_sticky h c st t q code,
      )

  map_sticky :
      (cs : List Container)
      → ("" == name) ≡ false
      → HasTerminated name t old
      → t.exit_code ≡ pos 1
      → IsNamed name cs
      → HasTerminated name t (map (polled h old) cs)
  unfolding status_named
  map_sticky [] f was code i = absurd i
  map_sticky (c ∷ cs) f (st, found, q) code i = elim (Bool-cases (c.name == name)) [
    | inl e ↦ here_sticky c (map (polled h old) cs) st e found q code
    | inr e ↦ elim i [
      | inl same ↦
          let x : (c.name == name) ≡ true = (string_equality.same_iff c.name name).1 same in cc
      | inr there ↦
          rw
            (other_name (polled h old c).name name c e f
              (advance-name h c (status_named c.name old)))
            (map_sticky cs f (st, found, q) code there)
    ]
  ]

-- A container whose status of its name has terminated with exit code 1 keeps this state, with its
-- reason, message and times, through any polls of its pod that do not panic, whatever the hosts
-- answer. The name is not empty.
pub polls_sticky :
    (hs : List Host) (p q : Pod) (name : String) (t : StateTerminated)
    → HasPolled hs p q
    → ("" == name) ≡ false
    → IsNamed name p.containers
    → HasTerminated name t p.status.container_statuses
    → t.exit_code ≡ pos 1
    → HasTerminated name t q.status.container_statuses
polls_sticky [] p q name t e f i was code =
    subst (λ r. HasTerminated name t r.status.container_statuses) e was
polls_sticky (h ∷ hs) p r name t (q, first, rest) f i was code =
    polls_sticky hs q r name t rest f
      (subst (IsNamed name) (sym (poll_same_containers h p q first)) i)
      (subst (HasTerminated name t) (sym (poll_statuses h p q first))
        (map_sticky h p.status.container_statuses name t p.containers f was code i))
      code
