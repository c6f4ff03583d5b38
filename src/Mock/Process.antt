-- ===== src/Mock/Process.antt =====
-- Processes: getParentPid and getUserProcesses of internal/provider/mock/mock.go, and
-- getProcessStatus of monitor.go.
use virtual_kubelet_cmd.Base.{
  String, Bool, Option, none, some, List, ◌∷◌, ℤ, ◌==◌, int_equality, string_equality, ◌||◌,
  if◌then◌else◌, filter_map,
}
use virtual_kubelet_cmd.Host.{Host}

-- The fourth field of the stat file, if there are that many.
fourth : List String → Option String
fourth (a ∷ b ∷ c ∷ d ∷ rest) = some d
fourth _ = none

abbrev pub checked : ℤ × Bool → Option ℤ
checked (n, done) = if done then some n else none

unfoldable pub get_parent_pid : Host → ℤ → Option ℤ
unfolding fourth
get_parent_pid h pid = elim (h.proc_stat pid) [
  | none ↦ none
  | some text ↦ elim (fourth (h.fields text)) [ none ↦ none | some d ↦ checked (h.atoi d) ]
]

-- The group of a process and that of its parent; none where one of the calls fails.
unfoldable pub groups_of : Host → ℤ → Option (ℤ × ℤ)
groups_of h pid = elim (h.getpgid pid) [
  | none ↦ none
  | some pgid ↦ elim (get_parent_pid h pid) [
    | none ↦ none
    | some ppid ↦ elim (h.getpgid ppid) [ none ↦ none | some ppgid ↦ some (pgid, ppgid) ]
  ]
]

-- A process counts for a container if it is in the group, or its parent is.
abbrev pub belongs : ℤ → ℤ × ℤ → Bool
belongs target (pgid, ppgid) = pgid == target || ppgid == target

-- One round of the loop of getProcessStatus: none is `continue`.
unfoldable pub process_status_of : Host → ℤ → ℤ → Option String
process_status_of h target pid =
    if h.has_process pid
    then (elim (groups_of h pid) [
      | none ↦ none
      | some g ↦
          if belongs target g
          then if h.has_cmdline pid then some (h.process_state pid) else none
          else none
    ])
    else none

-- A container ID that is no number counts as group 0.
unfoldable pub get_process_status : Host → List ℤ → String → List String
get_process_status h pids pgid = filter_map (process_status_of h (h.atoi pgid).0) pids

-- One round of the loop of getUserProcesses.
unfoldable pub owned_by : Host → String → ℤ → Option ℤ
owned_by h username pid =
    if h.has_process pid
    then (elim (h.username_of pid) [
      | none ↦ none
      | some owner ↦ if owner == username then some pid else none
    ])
    else none

-- The processes of the current user; none on an error.
unfoldable pub get_user_processes : Host → Option (List ℤ)
get_user_processes h = elim h.current_username [
  | none ↦ none
  | some username ↦ elim h.pids [
    | none ↦ none
    | some pids ↦ some (filter_map (owned_by h username) pids)
  ]
]
