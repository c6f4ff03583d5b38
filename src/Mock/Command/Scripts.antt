-- ===== src/Mock/Command/Scripts.antt =====
-- newCollectScripts, copyFile and handleCollectScriptsError of internal/provider/mock/command.go.
use virtual_kubelet_cmd.Base.{
  String, Bool, true, false, Option, none, some, List, [], ◌∷◌, pos, ◌||◌, if◌then◌else◌, ◌<>◌,
  string_equality, contains,
}
use virtual_kubelet_cmd.Base.Dict.{Dict, insert, find_or}
use virtual_kubelet_cmd.Disk.{Disk}
use virtual_kubelet_cmd.Errors.{Error, external}
use virtual_kubelet_cmd.Host.{Host}
use virtual_kubelet_cmd.Kube.{Time, VolumeMount, Container, ContainerState}

-- The three values that newCollectScripts returns, and the files that it copied, the last first.
pub record Collected : Type 0 where
  pub scripts : Option (Dict String String)
  pub state : Option ContainerState
  pub error : Option Error
  pub copied : List String

unfoldable pub handle_collect_scripts_error : Host → String → String → Time → ContainerState
handle_collect_scripts_error h message reason start = record {
  running = none;
  terminated = some (record {
    exit_code = pos 1;
    reason = reason;
    message = message;
    started_at = start;
    finished_at = h.now;
  });
}

-- A file that holds a certificate or a key is passed over.
abbrev pub is_credential : String → Bool
is_credential name = contains name "crt" || contains name "key" || contains name "pem"

-- `mkdir -p` and `cp`; the error of the first that fails.
unfoldable pub copy_file : Host → Disk → String → String → String → Option Error
copy_file h d src dst filename =
    if d.run_mkdir dst
    then if d.run_cp (h.path_join (src ∷ filename ∷ [])) (h.path_join (dst ∷ filename ∷ []))
      then none
      else some (external "cp")
    else some (external "mkdir")

module _ (h : Host) (d : Disk) (start : Time) where
  abbrev pub stopped : String → String → Error → List String → Collected
  stopped message reason e copied = record {
    scripts = none;
    state = some (handle_collect_scripts_error h message reason start);
    error = some e;
    copied = copied;
  }

  -- The loop over the files of a volume's directory; `next` is the loop over the other mounts.
  unfoldable pub collect_files :
      String
      → String
      → String
      → List String
      → (Dict String String → List String → Collected)
      → Dict String String
      → List String
      → Collected
  unfolding copy_file
  collect_files volume src dst [] next scripts copied = next scripts copied
  collect_files volume src dst (file ∷ files) next scripts copied = elim (is_credential file) [
    | true ↦ collect_files volume src dst files next scripts copied
    | false ↦ elim (copy_file h d src dst file) [
      | some e ↦
          stopped ("Failed to copy file " <> h.path_join (src ∷ file ∷ [])) "copyFileError" e copied
      | none ↦
          collect_files volume src dst files next
            (insert volume (h.path_join (dst ∷ file ∷ [])) scripts) (file ∷ copied)
    ]
  ]

  -- The loop over the volume mounts of the container.
  unfoldable pub collect_mounts :
      String
      → String
      → Container
      → Dict String String
      → List VolumeMount
      → Dict String String
      → List String
      → Collected
  unfolding collect_files
  collect_mounts ns pod_name c volume_map [] scripts copied = record {
    scripts = some scripts;
    state = none;
    error = none;
    copied = copied;
  }
  collect_mounts ns pod_name c volume_map (m ∷ ms) scripts copied =
      let src = find_or "" m.name volume_map in
      let dst =
        h.path_join (h.getenv "HOME" ∷ ns ∷ pod_name ∷ "containers" ∷ c.name ∷ m.mount_path ∷ []) in
      elim (d.read_dir src) [
        | none ↦
            stopped ("Failed to read default volume directory " <> src) "readDefaultVolDirError"
              (external "readdir") copied
        | some files ↦
            collect_files m.name src dst files (collect_mounts ns pod_name c volume_map ms) scripts
              copied
      ]

  unfoldable pub new_collect_scripts : Container → String → Dict String String → String → Collected
  unfolding collect_mounts
  new_collect_scripts c pod_name volume_map ns =
      collect_mounts ns pod_name c volume_map c.volume_mounts [] []
