-- ===== src/Mock/Kill/Owned.antt =====
-- Which processes a delete of a pod signals.
use virtual_kubelet_cmd.Base.{
  String, Bool, true, false, ◌||◌, Option, none, some, List, [], ◌∷◌, ℤ, ◌==◌, ◌≡◌, refl,
  string_equality, int_equality, if◌then◌else◌, arith, All, All-append, Bool-cases, Option-cases,
  inl, inr,
}
use virtual_kubelet_cmd.Disk.{Disk}
use virtual_kubelet_cmd.Errors.{external}
use virtual_kubelet_cmd.Host.{Host}
use virtual_kubelet_cmd.Kube.{ContainerStatus, Pod}
use virtual_kubelet_cmd.Mock.Process.{get_parent_pid, get_user_processes}
use virtual_kubelet_cmd.Mock.Kill.{
  Signal, Act, signal, sigstop, sigkill, remove, report, Signals, signal_process, signal_all,
  delete_container, delete_containers,
}

module _ (h : Host) where
  abbrev group_is : String → Option ℤ → Bool
  group_is id none = false
  group_is id (some g) = h.itoa g == id

  abbrev parent_group : Option ℤ → Option ℤ
  parent_group none = none
  parent_group (some pid) = h.getpgid pid

  -- The group of the process or the group of its parent is written in the container ID.
  abbrev pub is_process_of : ContainerStatus → ℤ → Bool
  is_process_of st pid =
      group_is st.container_id (h.getpgid pid)
      || group_is st.container_id (parent_group (get_parent_pid h pid))

module _ (os : Signals) where
  -- That is so for one of the containers, when its goroutine for the process looks.
  abbrev pub is_process_of_any : List ContainerStatus → Signal → ℤ → Bool
  is_process_of_any [] sig pid = false
  is_process_of_any (st ∷ sts) sig pid =
      is_process_of (os.seen st sig pid) st pid || is_process_of_any sts sig pid

  -- An act is no signal, or a signal to a process of one of the containers.
  abbrev pub is_fair : List ContainerStatus → Act → Bool
  is_fair sts (signal sig pid) = is_process_of_any sts sig pid
  is_fair sts (remove dir) = true
  is_fair sts (report e) = true

module _ (h : Host) (os : Signals) where
  abbrev pub IsFair : List ContainerStatus → List Act → Type 0
  IsFair sts acts = All (λ a. is_fair os sts a ≡ true) acts

  -- The processes of a container are processes of the containers of a list.
  abbrev Includes : List ContainerStatus → ContainerStatus → Type 0
  Includes sts st =
      (sig : Signal) (pid : ℤ)
      → is_process_of (os.seen st sig pid) st pid ≡ true
      → is_process_of_any os sts sig pid ≡ true

  signal_process-IsFair :
      (sts : List ContainerStatus) (sig : Signal) (st : ContainerStatus) (pid : ℤ)
      → Includes sts st
      → IsFair sts (signal_process (os.seen st sig pid) os sig st.container_id pid)
  unfolding signal_process
  signal_process-IsFair sts sig st pid i =
      let g' = os.seen st sig pid in
      elim (Bool-cases (os.find_process sig pid)) [
        | inr a ↦ rw a tt
        | inl a ↦ elim (Option-cases (g'.getpgid pid)) [
          | inl b ↦ rw (a, b) (refl, tt)
          | inr (g, b) ↦ elim (Option-cases (get_parent_pid g' pid)) [
            | inl c ↦ rw (a, b, c) (refl, tt)
            | inr (pp, c) ↦ elim (Option-cases (g'.getpgid pp)) [
              | inl d ↦ rw (a, b, c, d) (refl, tt)
              | inr (pg, d) ↦
                  elim (Bool-cases
                    (g'.itoa g == st.container_id || g'.itoa pg == st.container_id)) [
                      | inr e ↦ rw (a, b, c, d, e) tt
                      | inl e ↦
                          let own = i sig pid (rw (b, c, d) e) in
                          elim (Bool-cases (os.delivers sig pid)) [
                            | inl f ↦ rw (a, b, c, d, e, f) (own, tt)
                            | inr f ↦ rw (a, b, c, d, e, f) (own, (refl, tt))
                          ]
                    ]
            ]
          ]
        ]
      ]

  signal_all-IsFair :
      (sts : List ContainerStatus) (sig : Signal) (st : ContainerStatus) (pids : List ℤ)
      → Includes sts st
      → IsFair sts (signal_all os st sig pids)
  unfolding signal_all
  signal_all-IsFair sts sig st [] i = tt
  signal_all-IsFair sts sig st (pid ∷ pids) i =
      All-append (λ a. is_fair os sts a ≡ true)
        (signal_process (os.seen st sig pid) os sig st.container_id pid) (signal_all os st sig pids)
        (signal_process-IsFair sts sig st pid i) (signal_all-IsFair sts sig st pids i)

  delete_container-IsFair :
      (d : Disk) (p : Pod) (sts : List ContainerStatus) (st : ContainerStatus)
      → Includes sts st
      → IsFair sts (delete_container h os d p st)
  unfolding delete_container
  delete_container-IsFair d p sts st i = elim (Option-cases (get_user_processes (os.listing st))) [
    | inl a ↦ rw (a, delete_container) (refl, tt)
    | inr (pids, a) ↦
        rw (a, delete_container)
          (All-append (λ a. is_fair os sts a ≡ true) (signal_all os st sigstop pids) _
            (signal_all-IsFair sts sigstop st pids i)
            (All-append (λ a. is_fair os sts a ≡ true) (signal_all os st sigkill pids) _
              (signal_all-IsFair sts sigkill st pids i)
              (
                refl,
                removed (d.remove_all (h.path_join (h.getenv "HOME" ∷ p.namespace ∷ p.name ∷ []))),
              )))
  ]
    where
      removed :
          (b : Bool)
          → IsFair sts (
              if b
              then report none ∷ []
              else report (some (external "failed to delete pod directory")) ∷ [])
      removed true = (refl, tt)
      removed false = (refl, tt)

  delete_all-IsFair :
      (d : Disk) (p : Pod) (sts rest : List ContainerStatus)
      → ((sig : Signal) (pid : ℤ)
          → is_process_of_any os rest sig pid ≡ true
          → is_process_of_any os sts sig pid ≡ true)
      → IsFair sts (delete_containers h os d p rest)
  unfolding delete_containers
  delete_all-IsFair d p sts [] i = tt
  delete_all-IsFair d p sts (st ∷ rest) i =
      All-append (λ a. is_fair os sts a ≡ true) (delete_container h os d p st)
        (delete_containers h os d p rest)
        (delete_container-IsFair d p sts st (λ sig pid e. i sig pid (ground (arith, e))))
        (delete_all-IsFair d p sts rest (λ sig pid e. i sig pid (ground (arith, e))))

  -- Every signal that a delete of a pod sends goes to a process whose own group or whose parent's
  -- group is written in the container ID of one of the pod's container statuses, as its goroutine for
  -- the process and the signal sees them.
  pub delete_containers-IsFair :
      (d : Disk) (p : Pod) (sts : List ContainerStatus)
      → IsFair sts (delete_containers h os d p sts)
  delete_containers-IsFair d p sts = delete_all-IsFair d p sts sts (λ sig pid e. e)
