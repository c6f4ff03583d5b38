-- ===== src/Mock/Kill.antt =====
-- deletePod of internal/provider/mock/mock.go: the processes of each container are stopped and then
-- killed, and the directory of the pod is removed. The goroutines of one loop over the processes run
-- at once; they stand here in the order of the process list, and their channel takes every error.
pub mod Channel
pub mod Hit
pub mod Killed
pub mod Owned
pub mod Reads
pub mod Sends
pub mod Sequences
use virtual_kubelet_cmd.Base.{
  String, Bool, Option, none, some, List, [], ◌∷◌, ◌++◌, ℤ, ◌==◌, ◌||◌, string_equality,
  if◌then◌else◌, map, filter_map,
}
use virtual_kubelet_cmd.Disk.{Disk}
use virtual_kubelet_cmd.Errors.{Error, external}
use virtual_kubelet_cmd.Host.{Host}
use virtual_kubelet_cmd.Kube.{ContainerStatus, Pod}
use virtual_kubelet_cmd.Mock.Process.{get_parent_pid, get_user_processes}

pub data Signal : Type 0 where
  sigstop sigkill : Signal

abbrev pub failure : Signal → String
failure sigstop = "failed to stop process"
failure sigkill = "failed to kill process"

-- What deletePod does to the system, and what it sends on the error channel.
pub data Act : Type 0 where
  signal : Signal → ℤ → Act
  remove : String → Act
  report : Option Error → Act

-- What the operating system answers to a delete: os.FindProcess, whether a signal arrives, and the
-- host that is seen by the goroutine of a container status when it lists the processes, and by its
-- goroutine for a process when it looks at this one's group and parent. The processes change while
-- signals are sent, so these hosts may differ from each other, and between the two loops.
pub record Signals : Type 0 where
  pub find_process : Signal → ℤ → Bool
  pub delivers : Signal → ℤ → Bool
  pub listing : ContainerStatus → Host
  pub seen : ContainerStatus → Signal → ℤ → Host

module _ (h : Host) (os : Signals) where
  -- The goroutine of one process, in the loop that stops and in the loop that kills.
  unfoldable pub signal_process : Signal → String → ℤ → List Act
  signal_process sig pgid pid =
      if os.find_process sig pid
      then (elim (h.getpgid pid) [
        | none ↦ report (some (external "failed to get pgid")) ∷ []
        | some group ↦ elim (get_parent_pid h pid) [
          | none ↦ report (some (external "failed to get ppid")) ∷ []
          | some ppid ↦ elim (h.getpgid ppid) [
            | none ↦ report (some (external "failed to get parent's pgid")) ∷ []
            | some parent_group ↦
                if h.itoa group == pgid || h.itoa parent_group == pgid
                then signal sig pid
                  ∷ (if os.delivers sig pid
                      then []
                      else report (some (external (failure sig))) ∷ [])
                else []
          ]
        ]
      ])
      else []

module _ (os : Signals) where
  -- The loop over the processes, for a container status: what each of its goroutines does.
  unfoldable pub signal_all : ContainerStatus → Signal → List ℤ → List Act
  unfolding signal_process
  signal_all st sig [] = []
  signal_all st sig (pid ∷ pids) =
      signal_process (os.seen st sig pid) os sig st.container_id pid ++ signal_all st sig pids

module _ (h : Host) (os : Signals) where
  -- The goroutine of one container status. The terminated state that it sets is set on a copy.
  unfoldable pub delete_container : Disk → Pod → ContainerStatus → List Act
  unfolding get_user_processes signal_all
  delete_container d p st = elim (get_user_processes (os.listing st)) [
    | none ↦ report (some (external "failed to get user processes")) ∷ []
    | some pids ↦
        let dir = h.path_join (h.getenv "HOME" ∷ p.namespace ∷ p.name ∷ []) in
        signal_all os st sigstop pids
        ++ (signal_all os st sigkill pids
            ++ (remove dir
                ∷ (if d.remove_all dir
                    then report none ∷ []
                    else report (some (external "failed to delete pod directory")) ∷ [])))
  ]

  unfoldable pub delete_containers : Disk → Pod → List ContainerStatus → List Act
  unfolding delete_container
  delete_containers d p [] = []
  delete_containers d p (st ∷ sts) = delete_container d p st ++ delete_containers d p sts

-- What is sent on the error channel.
abbrev pub report_of : Act → Option (Option Error)
report_of (signal sig pid) = none
report_of (remove dir) = none
report_of (report e) = some e

abbrev pub reports : List Act → List (Option Error)
reports acts = filter_map report_of acts

-- The loop that reads the channel once for each container status, up to the first error. `none` is a
-- read that waits for ever.
unfoldable pub read_errors : List ContainerStatus → List (Option Error) → Option (Option Error)
read_errors [] rs = some none
read_errors (st ∷ sts) [] = none
read_errors (st ∷ sts) (some e ∷ rs) = some (some e)
read_errors (st ∷ sts) (none ∷ rs) = read_errors sts rs
