-- ===== src/Mock/Command/Parallel.antt =====
-- runScriptParallel and generateContainerStatus of internal/provider/mock/command.go. A goroutine for
-- each container sends at most one error and one status; the statuses arrive in the order in which
-- the goroutines finish.
use virtual_kubelet_cmd.Base.{
  String, Bool, false, Option, none, some, List, [], ◌∷◌, ◌++◌, ℤ, pos, string_equality,
  if◌then◌else◌, ◌<>◌,
}
use virtual_kubelet_cmd.Base.Dict.{Dict, find_or}
use virtual_kubelet_cmd.Base.Outcome.{Outcome, ok, panic, ◌>>=◌}
use virtual_kubelet_cmd.Disk.{Disk}
use virtual_kubelet_cmd.Errors.{Error, plain, external}
use virtual_kubelet_cmd.Host.{Host}
use virtual_kubelet_cmd.Kube.{Time, Container, ContainerState, ContainerStatus, Pod}
use virtual_kubelet_cmd.Mock.Command.Scripts.{Collected, new_collect_scripts}
use virtual_kubelet_cmd.Mock.Command.Script.{Shell, run_script, prepare_args}

-- `*state` panics on nil.
unfoldable pub generate_container_status :
    Host → Container → String → Bool → Option ContainerState → ℤ → Outcome Error ContainerStatus
generate_container_status h c script_path ready none pgid = panic
generate_container_status h c script_path ready (some state) pgid = ok (record {
  name = c.name;
  state = state;
  ready = ready;
  restart_count = 0;
  image = c.image;
  image_id = script_path;
  container_id = h.itoa pgid;
})

-- What a goroutine sends, and the pgid file that it writes.
pub record Sent : Type 0 where
  pub error : Option Error
  pub status : Option ContainerStatus
  pub pgid_file : Option (String × String)

abbrev pub send_status :
    Option Error → Option (String × String) → Outcome Error ContainerStatus → Outcome Error Sent
send_status e file made = do
  st ← made
  ok (record { error = e; status = some st; pgid_file = file })

module _ (h : Host) (d : Disk) (sh : Shell) (p : Pod) (start : Time) where
  -- The last part of the goroutine: the command has started, its group is written to a file.
  unfoldable pub record_group : Container → String → ℤ → Outcome Error Sent
  unfolding generate_container_status
  record_group c script_path pgid =
      let file = h.path_join (
        h.path_join (h.getenv "HOME" ∷ p.namespace ∷ p.name ∷ "containers" ∷ c.name ∷ [])
        ∷ "pgid"
        ∷ []) in
      if d.write_file file
      then send_status none (some (file, h.itoa pgid <> "\n")) (
          generate_container_status h c script_path false
            (some (record { running = some (record { started_at = start }); terminated = none }))
            pgid)
      else send_status (some (external "writefile")) none (
          generate_container_status h c script_path false
            (some (record {
              running = none;
              terminated = some (record {
                exit_code = pos 10;
                reason = "writePgidError";
                message = "failed to write pgid to file " <> file;
                started_at = start;
                finished_at = h.now;
              });
            }))
            pgid)

  abbrev pub after_run :
      Container → String → Option Error → Option ContainerState → ℤ → Outcome Error Sent
  after_run c script_path (some e) state pgid =
      send_status (some e) none (generate_container_status h c script_path false state pgid)
  after_run c script_path none state pgid = record_group c script_path pgid

  -- A container with no command sends an error and no status.
  unfoldable pub run_container : Container → Dict String String → List String → Outcome Error Sent
  unfolding record_group run_script prepare_args
  run_container c scripts [] = ok (record {
    error = some (plain "no command found for container");
    status = none;
    pgid_file = none;
  })
  run_container c scripts (word ∷ words) =
      let script_path = find_or "" c.image scripts in
      run_script h d sh ((word ∷ words) ++ script_path ∷ []) (prepare_args c.args) c.env
        (h.path_dir script_path) start
      >>= λ r. after_run c script_path r.error r.state r.pgid

  -- A nil map reads as an empty one.
  abbrev pub or_empty : Option (Dict String String) → Dict String String
  or_empty none = []
  or_empty (some m) = m

  -- What the goroutine does with the scripts, by the error that collecting them gave.
  abbrev pub after_collect : Container → Collected → Option Error → Outcome Error Sent
  after_collect c col (some e) =
      send_status (some e) none (generate_container_status h c "" false col.state (pos 0))
  after_collect c col none = run_container c (or_empty col.scripts) c.command

  -- The goroutine of one container.
  unfoldable pub start_container : Dict String String → Container → Outcome Error Sent
  unfolding new_collect_scripts generate_container_status run_container
  start_container volume_map c =
      let col = new_collect_scripts h d start c p.name volume_map p.namespace in
      after_collect c col col.error

  -- The goroutines in the order in which they finish.
  unfoldable pub run_script_parallel :
      Dict String String → List Container → Outcome Error (List Sent)
  unfolding start_container
  run_script_parallel volume_map [] = ok []
  run_script_parallel volume_map (c ∷ cs) = do
    s ← start_container volume_map c
    rest ← run_script_parallel volume_map cs
    ok (s ∷ rest)
