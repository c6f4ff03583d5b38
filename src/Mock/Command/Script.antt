-- ===== src/Mock/Command/Script.antt =====
-- runScript and what it calls, in internal/provider/mock/command.go: one shell command in a process
-- group of its own.
use virtual_kubelet_cmd.Base.{
  String, Option, none, some, List, [], ◌∷◌, ◌++◌, ℤ, pos, string_equality, if◌then◌else◌, ◌<>◌,
  join, split_once, map,
}
use virtual_kubelet_cmd.Base.Dict.{Dict, insert}
use virtual_kubelet_cmd.Base.Outcome.{Outcome, ok, err, panic}
use virtual_kubelet_cmd.Disk.{Disk}
use virtual_kubelet_cmd.Errors.{Error, external}
use virtual_kubelet_cmd.Host.{Host}
use virtual_kubelet_cmd.Kube.{Time, EnvVar, ContainerState}

-- What comes first: the end of the command, or the half second after which runScript returns.
pub data Race : Type 0 where
  exits_well timer_first : Race
  exits_with : String → Race

-- What a command does once it is started; `start_error` is the error of cmd.Start().
pub record Launch : Type 0 where
  pub start_error : Option String
  pub group : Option ℤ
  pub race : Race

-- The command line after `bash -c`, and its environment.
pub record Command : Type 0 where
  pub line : String
  pub environ : List String

-- The shell and the text functions of Go: what a command does, os.Environ(), os.Expand and
-- strings.ReplaceAll.
pub record Shell : Type 0 where
  pub launch : Command → Launch
  pub environ : List String
  pub expand : String → Dict String String → String
  pub replace_all : String → String → String → String

-- An entry with no "=" makes `pair[1]` panic.
unfoldable pub environment_map :
    List String → Dict String String → Outcome Error (Dict String String)
environment_map [] m = ok m
environment_map (e ∷ es) m = elim (split_once e) [
  | none ↦ panic
  | some (k, v) ↦ environment_map es (insert k v m)
]

unfoldable pub create_environment_map : Shell → Outcome Error (Dict String String)
unfolding environment_map
create_environment_map sh = environment_map sh.environ []

-- The variables of the container, with `~` and `$HOME` replaced.
unfoldable pub update_environment_variables :
    Host → Shell → List EnvVar → Dict String String → Dict String String
update_environment_variables h sh [] m = m
update_environment_variables h sh (e ∷ es) m =
    let home = h.getenv "HOME" in
    let value = sh.replace_all (sh.replace_all e.value "~" home) "$HOME" home in
    update_environment_variables h sh es (insert e.name value m)

abbrev pub assignment : String × String → String
assignment (k, v) = k <> "=" <> v

unfoldable pub prepare_command : Shell → List String → String → Dict String String → Command
prepare_command sh command args env_map = record {
  line = sh.expand (join " " command) env_map <> " " <> sh.expand args env_map;
  environ = sh.environ ++ map assignment env_map;
}

unfoldable pub prepare_args : List String → String
prepare_args args = join " " args

-- The process group, the state (nil for none) and the error.
pub record Run : Type 0 where
  pub pgid : ℤ
  pub state : Option ContainerState
  pub error : Option Error

unfoldable pub handle_run_cmd_error : Host → String → ℤ → String → Time → String → Run
handle_run_cmd_error h e pgid message start reason = record {
  pgid = pgid;
  state = some (record {
    running = none;
    terminated = some (record {
      exit_code = pos 1;
      reason = reason;
      message = message <> ", error: " <> e;
      started_at = start;
      finished_at = h.now;
    });
  });
  error = some (external e);
}

-- The `select` at the end.
unfoldable pub await : Host → Time → ℤ → Race → Run
unfolding handle_run_cmd_error
await h start pgid exits_well = record { pgid = pgid; state = none; error = none }
await h start pgid timer_first = record { pgid = pgid; state = none; error = none }
await h start pgid (exits_with e) =
    handle_run_cmd_error h e pgid "cmd.Wait() failed" start "cmdWaitError"

unfoldable pub run_command : Host → Disk → Launch → String → Time → Run
unfolding handle_run_cmd_error await
run_command h d l stdout_path start = elim l.start_error [
  | some e ↦ handle_run_cmd_error h e (pos 0) "cmd.Start() failed" start "cmdStartError"
  | none ↦ elim l.group [
    | none ↦ handle_run_cmd_error h "getpgid" (pos 0) "failed to get pgid" start "getPgidError"
    | some pgid ↦
        if d.create (h.path_join (stdout_path ∷ "stdout" ∷ []))
        then if d.create (h.path_join (stdout_path ∷ "stderr" ∷ []))
          then await h start pgid l.race
          else handle_run_cmd_error h "create" pgid "failed to create stderr file" start
              "createStderrFileError"
        else handle_run_cmd_error h "create" pgid "failed to create stdout file" start
            "createStdoutFileError"
  ]
]

unfoldable pub run_script :
    Host → Disk → Shell → List String → String → List EnvVar → String → Time → Outcome Error Run
unfolding create_environment_map update_environment_variables prepare_command run_command
run_script h d sh command args env stdout_path start = elim (create_environment_map sh) [
  | ok env_map ↦ ok (
      run_command h d
        (sh.launch
          (prepare_command sh command args (update_environment_variables h sh env env_map)))
        stdout_path start)
  | err e ↦ panic
  | panic ↦ panic
]
