-- ===== src/Host.antt =====
-- What the operating system and Go's string functions answer to the provider: processes of /proc,
-- files, the environment, the clock. One value of `Host` is what is seen during one call.
use virtual_kubelet_cmd.Base.{ℕ, String, Bool, Option, List, ℤ}
use virtual_kubelet_cmd.Kube.{Time}

pub record Host : Type 0 where
  -- time.Now()
  pub now : Time
  -- os.Getenv, "" for an unset variable
  pub getenv : String → String
  -- process.Pids(), none on an error
  pub pids : Option (List ℤ)
  -- process.NewProcess(pid) succeeds
  pub has_process : ℤ → Bool
  -- syscall.Getpgid
  pub getpgid : ℤ → Option ℤ
  -- the contents of /proc/<pid>/stat, none if it cannot be opened or read
  pub proc_stat : ℤ → Option String
  -- proc.Cmdline() succeeds, and proc.Status()
  pub has_cmdline : ℤ → Bool
  pub process_state : ℤ → String
  -- proc.Username(), and the name of user.Current()
  pub username_of : ℤ → Option String
  pub current_username : Option String
  -- os.Stat(path).Size(), none on an error
  pub file_size : String → Option ℕ
  -- the first line of a file, none if it cannot be opened
  pub first_line : String → Option String
  -- path.Join, filepath.Dir, strings.Fields
  pub path_join : List String → String
  pub path_dir : String → String
  pub fields : String → List String
  -- strconv.Atoi: the number, and whether there was no error; strconv.Itoa
  pub atoi : String → ℤ × Bool
  pub itoa : ℤ → String
