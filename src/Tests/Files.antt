-- ===== src/Tests/Files.antt =====
-- The theorems on volumes, at a pod with one ConfigMap and one projected secret.
use virtual_kubelet_cmd.Base.{true, false, none, some, [], ◌∷◌, All, join}
use virtual_kubelet_cmd.Host.{Host}
use virtual_kubelet_cmd.Kube.{Pod, Phase, PodVolume, SecretObject, ConfigMapObject}
use virtual_kubelet_cmd.Manager.{ResourceManager, found}
use virtual_kubelet_cmd.Mock.Volumes.Confined.{IsInside}
use virtual_kubelet_cmd.Mock.Volumes.PodDir.{volumes-IsInside}
use virtual_kubelet_cmd.Mock.Volumes.Switch.{volumes, volume_all}
use virtual_kubelet_cmd.Tests.Fixtures.{quiet_host, good_disk, pod_with, status_with}

abbrev token : SecretObject
token = record {
  namespace = "default";
  name = "token";
  is_service_account_token = true;
  annotations = [];
  string_data = [];
  bytes_data = ("ca", "x") ∷ [];
}

abbrev settings : ConfigMapObject
settings = record {
  namespace = "default";
  name = "settings";
  text_data = ("run.sh", "true") ∷ [];
  binary_data = [];
}

abbrev objects : ResourceManager
objects = record {
  pod_lister = some [];
  secret_lister = λ a b. found token;
  secrets_lister = λ a. some (token ∷ []);
  config_map_lister = λ a b. found settings;
  config_maps_lister = λ a. some [];
  service_lister = some [];
}

abbrev config_volume : PodVolume
config_volume = record {
  name = "v";
  host_path = false;
  empty_dir = false;
  secret = none;
  config_map = some (record { name = "settings"; optional = none });
  projected = none;
}

-- A host whose path.Join puts slashes between the parts.
abbrev joining_host : Host
joining_host = record quiet_host { path_join = join "/" }

abbrev pod_with_volume : Pod
pod_with_volume = record (pod_with "default" "web" (status_with Phase.unset none [])) {
  volumes = config_volume ∷ [];
}

volumes-IsInside_example :
    All
      (IsInside joining_host pod_with_volume)
      (volumes joining_host good_disk pod_with_volume objects volume_all []).1
volumes-IsInside_example =
    volumes-IsInside joining_host good_disk pod_with_volume objects volume_all
