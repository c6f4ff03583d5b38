-- ===== src/Mock/Command/Total.antt =====
-- The goroutines of runScriptParallel never dereference a nil state.
use virtual_kubelet_cmd.Base.{
  String, string_equality, false, Option, none, some, [], ◌∷◌, ℤ, pos, ◌≡◌, refl, ap, suc,
  Option-cases, Bool-cases, inl, inr, arith, length, List, All, equals_free, split_some,
}
use virtual_kubelet_cmd.Base.Dict.{Dict, find_or, insert}
use virtual_kubelet_cmd.Base.Outcome.{Outcome, ok}
use virtual_kubelet_cmd.Disk.{Disk}
use virtual_kubelet_cmd.Errors.{Error}
use virtual_kubelet_cmd.Host.{Host}
use virtual_kubelet_cmd.Kube.{Time, VolumeMount, Container, ContainerState, Pod}
use virtual_kubelet_cmd.Mock.Command.Scripts.{
  Collected, copy_file, is_credential, collect_files, collect_mounts, new_collect_scripts,
}
use virtual_kubelet_cmd.Mock.Command.Script.{
  Launch, Shell, environment_map, create_environment_map, run_command, run_script,
}
use virtual_kubelet_cmd.Mock.Command.Parallel.{
  Sent, send_status, generate_container_status, record_group, after_run, run_container,
  after_collect, start_container, run_script_parallel,
}

-- An error comes with a state.
abbrev HasState : Option Error → Option ContainerState → Type 0
HasState none state = Unit
HasState (some e) none = ⊥
HasState (some e) (some state) = Unit

abbrev CollectedHasState : Collected → Type 0
CollectedHasState col = HasState col.error col.state

module _ (h : Host) (d : Disk) (start : Time) where
  collect_files-HasState :
      (volume src dst : String) (files : List String)
      (next : Dict String String → List String → Collected) (scripts : Dict String String)
      (copied : List String)
      → ((m : Dict String String) (l : List String) → CollectedHasState (next m l))
      → CollectedHasState (collect_files h d start volume src dst files next scripts copied)
  unfolding collect_files
  collect_files-HasState volume src dst [] next scripts copied k = k scripts copied
  collect_files-HasState volume src dst (file ∷ files) next scripts copied k =
      elim (Bool-cases (is_credential file)) [
        | inl e ↦
            rw (e, collect_files)
              (collect_files-HasState volume src dst files next scripts copied k)
        | inr e ↦ elim (Option-cases (copy_file h d src dst file)) [
          | inl c ↦
              rw (e, c, collect_files)
                (collect_files-HasState volume src dst files next _ (file ∷ copied) k)
          | inr (x, c) ↦ rw (e, c, collect_files) tt
        ]
      ]

  collect_mounts-HasState :
      (ns pod_name : String) (c : Container) (volume_map : Dict String String)
      (ms : List VolumeMount) (scripts : Dict String String) (copied : List String)
      → CollectedHasState (collect_mounts h d start ns pod_name c volume_map ms scripts copied)
  unfolding collect_mounts
  collect_mounts-HasState ns pod_name c volume_map [] scripts copied = tt
  collect_mounts-HasState ns pod_name c volume_map (m ∷ ms) scripts copied =
      elim (Option-cases (d.read_dir (find_or "" m.name volume_map))) [
        | inl e ↦ rw (e, collect_mounts) tt
        | inr (files, e) ↦
            rw (e, collect_mounts)
              (collect_files-HasState m.name _ _ files
                (collect_mounts h d start ns pod_name c volume_map ms) scripts copied
                (collect_mounts-HasState ns pod_name c volume_map ms))
      ]

run_command-HasState :
    (h : Host) (d : Disk) (l : Launch) (stdout_path : String) (start : Time)
    → HasState
        (run_command h d l stdout_path start).error
        (run_command h d l stdout_path start).state
unfolding run_command
run_command-HasState h d l stdout_path start = ground arith

-- A goroutine that ends well: no panic.
abbrev Ends : Outcome Error Sent → Type 0
Ends r = (s : Sent) × (r ≡ ok s)

-- An entry of the environment that has a "=".
abbrev pub HasEquals : String → Type 0
HasEquals entry = equals_free entry ≡ false

environment_map_total :
    (entries : List String) (m : Dict String String)
    → All HasEquals entries
    → (env : Dict String String) × (environment_map entries m ≡ ok env)
unfolding environment_map
environment_map_total [] m a = (m, refl)
environment_map_total (e ∷ es) m (has, a) =
    let (kv, split) = split_some e has in
    rw (split, environment_map) (environment_map_total es (insert kv.0 kv.1 m) a)

module _ (h : Host) (d : Disk) (sh : Shell) (p : Pod) (start : Time) where
  record_group_total :
      (c : Container) (script_path : String) (pgid : ℤ)
      → Ends (record_group h d sh p start c script_path pgid)
  unfolding record_group
  record_group_total c script_path pgid =
      elim (Bool-cases (
        d.write_file (
          h.path_join (
            h.path_join (h.getenv "HOME" ∷ p.namespace ∷ p.name ∷ "containers" ∷ c.name ∷ [])
            ∷ "pgid"
            ∷ [])))) [
              | inl e ↦ rw (e, record_group) (_, refl)
              | inr e ↦ rw (e, record_group) (_, refl)
            ]

  after_run_total :
      (c : Container) (script_path : String) (e : Option Error) (state : Option ContainerState)
      (pgid : ℤ)
      → HasState e state
      → Ends (after_run h d sh p start c script_path e state pgid)
  unfolding generate_container_status
  after_run_total c script_path none state pgid k = record_group_total c script_path pgid
  after_run_total c script_path (some e) none pgid k = absurd k
  after_run_total c script_path (some e) (some state) pgid k = (_, refl)

  module _ (env : Dict String String) (environ : create_environment_map sh ≡ ok env) where
    run_container_total :
        (c : Container) (scripts : Dict String String) (command : List String)
        → Ends (run_container h d sh p start c scripts command)
    unfolding run_container
    run_container_total c scripts [] = (_, refl)
    run_container_total c scripts (word ∷ words) =
        rw (environ, run_container, run_script)
          (after_run_total c (find_or "" c.image scripts) _ _ _
            (run_command-HasState h d _ (h.path_dir (find_or "" c.image scripts)) start))

    after_collect_total :
        (c : Container) (col : Collected) (e : Option Error)
        → HasState e col.state
        → Ends (after_collect h d sh p start c col e)
    unfolding generate_container_status
    after_collect_total c col none k = run_container_total c _ c.command
    after_collect_total c col (some e) k = by_state col.state k
      where
        by_state :
            (state : Option ContainerState)
            → HasState (some e) state
            → Ends
                (send_status (some e) none (generate_container_status h c "" false state (pos 0)))
        by_state none n = absurd n
        by_state (some state) n = (_, refl)

    -- With an environment that can be split, the goroutine of a container ends without a panic,
    -- whatever the disk and the commands do.
    pub start_container_total :
        (volume_map : Dict String String) (c : Container)
        → Ends (start_container h d sh p start volume_map c)
    unfolding start_container new_collect_scripts
    start_container_total volume_map c =
        after_collect_total c (new_collect_scripts h d start c p.name volume_map p.namespace) _
          (collect_mounts-HasState h d start p.namespace p.name c volume_map c.volume_mounts [] [])

    goroutines_total :
        (volume_map : Dict String String) (order : List Container)
        → (sent : List Sent) × (run_script_parallel h d sh p start volume_map order ≡ ok sent)
          × (length sent ≡ length order)
    unfolding run_script_parallel
    goroutines_total volume_map [] = ([], refl, refl)
    goroutines_total volume_map (c ∷ cs) =
        let (s, e) = start_container_total volume_map c in
        let (rest, f, n) = goroutines_total volume_map cs in (s ∷ rest, rw (e, f) refl, ap suc n)

  -- With an environment whose entries all have a "=", all goroutines of a pod end without a panic,
  -- each with what it sends, whatever the disk and the commands do.
  pub run_script_parallel_total :
      All HasEquals sh.environ
      → (volume_map : Dict String String) (order : List Container)
      → (sent : List Sent) × (run_script_parallel h d sh p start volume_map order ≡ ok sent)
        × (length sent ≡ length order)
  unfolding create_environment_map
  run_script_parallel_total a volume_map order =
      let (env, made) = environment_map_total sh.environ [] a in
      goroutines_total env made volume_map order
