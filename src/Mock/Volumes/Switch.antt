-- ===== src/Mock/Volumes/Switch.antt =====
-- The switch over the volumes of a pod, in internal/provider/mock/volumes.go.
use virtual_kubelet_cmd.Base.{
  String, Bool, true, false, Option, none, some, List, [], ◌∷◌, string_equality, if◌then◌else◌,
}
use virtual_kubelet_cmd.Base.Dict.{Dict, insert}
use virtual_kubelet_cmd.Disk.{Disk}
use virtual_kubelet_cmd.Errors.{plain}
use virtual_kubelet_cmd.Host.{Host}
use virtual_kubelet_cmd.Kube.{SecretSource, ConfigMapSource, ProjectionSource, PodVolume, Pod}
use virtual_kubelet_cmd.Manager.{ResourceManager}
use virtual_kubelet_cmd.Mock.Volumes.Files.{Action, pure, fail, ◌>>=◌, setup_paths}
use virtual_kubelet_cmd.Mock.Volumes.Sources.{project_sources, set_up_secret, set_up_config_map}

-- Which volumes should be set up.
pub data Which : Type 0 where
  volume_all volume_config_map volume_secret : Which

-- The cases of the switch over a volume, in its order.
pub data Kind : Type 0 where
  host_path empty_dir unsupported : Kind
  secret : SecretSource → Kind
  config_map : ConfigMapSource → Kind
  projected : List ProjectionSource → Kind

unfoldable pub first_source :
    Option SecretSource → Option ConfigMapSource → Option (List ProjectionSource) → Kind
first_source (some s) c j = secret s
first_source none (some c) j = config_map c
first_source none none (some j) = projected j
first_source none none none = unsupported

unfoldable pub kind_of : PodVolume → Kind
unfolding first_source
kind_of v =
    if v.host_path
    then host_path
    else if v.empty_dir
    then empty_dir
    else first_source v.secret v.config_map v.projected

-- A volume of a kind that `which` does not ask for is passed over by `continue`.
unfoldable pub is_wanted : Which → Kind → Bool
is_wanted volume_all k = true
is_wanted volume_config_map (config_map c) = true
is_wanted volume_config_map (projected j) = true
is_wanted volume_config_map unsupported = true
is_wanted volume_config_map _ = false
is_wanted volume_secret (secret s) = true
is_wanted volume_secret (projected j) = true
is_wanted volume_secret unsupported = true
is_wanted volume_secret _ = false

module _ (h : Host) (d : Disk) (p : Pod) (rm : ResourceManager) where
  unfoldable pub set_up : String → Kind → Dict String String → Action (Dict String String)
  unfolding setup_paths set_up_secret set_up_config_map project_sources
  set_up name host_path vol = pure (insert name "" vol)
  set_up name empty_dir vol = do
    dir ← setup_paths h d p "emptydirs" name
    pure (insert name dir vol)
  set_up name (secret source) vol = set_up_secret h d p rm name source vol
  set_up name (config_map source) vol = set_up_config_map h d p rm name source vol
  set_up name (projected sources) vol = project_sources h d p rm name sources vol
  set_up name unsupported vol = fail (plain "volume is of an unsupported type")

  -- The loop over the volumes of the pod.
  unfoldable pub volumes_from :
      Which → List PodVolume → Dict String String → Action (Dict String String)
  unfolding kind_of is_wanted set_up
  volumes_from which [] vol = pure vol
  volumes_from which (v ∷ rest) vol = do
    vol' ← (if is_wanted which (kind_of v) then set_up v.name (kind_of v) vol else pure vol)
    volumes_from which rest vol'

  -- The volumes of the pod, and the directory of each.
  unfoldable pub volumes : Which → Action (Dict String String)
  unfolding volumes_from
  volumes which = volumes_from which p.volumes []
