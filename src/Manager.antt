-- ===== src/Manager.antt =====
-- internal/manager/resource.go: the resource manager hands each call to a lister of client-go. A
-- lister gives a nil object with each error, and tells a missing object by a NotFound error.
use virtual_kubelet_cmd.Base.{String, List, [], Option, none, some}
use virtual_kubelet_cmd.Base.Outcome.{Outcome, ok}
use virtual_kubelet_cmd.Errors.{Error}
use virtual_kubelet_cmd.Kube.{Pod, SecretObject, ConfigMapObject}

pub data Fetched (A : Type 0) : Type 0 where
  found : A → Fetched A
  missing : Fetched A
  failed : Fetched A

-- v1.Service, by its names
pub record Service : Type 0 where
  pub namespace : String
  pub name : String

-- The listers. `none` is an error.
pub record ResourceManager : Type 0 where
  pub pod_lister : Option (List Pod)
  pub secret_lister : String → String → Fetched SecretObject
  pub secrets_lister : String → Option (List SecretObject)
  pub config_map_lister : String → String → Fetched ConfigMapObject
  pub config_maps_lister : String → Option (List ConfigMapObject)
  pub service_lister : Option (List Service)

-- NewResourceManager, whose argument stands for the four listers.
unfoldable pub new_resource_manager : ResourceManager → Outcome Error ResourceManager
new_resource_manager listers = ok (record {
  pod_lister = listers.pod_lister;
  secret_lister = listers.secret_lister;
  secrets_lister = listers.secrets_lister;
  config_map_lister = listers.config_map_lister;
  config_maps_lister = listers.config_maps_lister;
  service_lister = listers.service_lister;
})

unfoldable pub get_pods : ResourceManager → List Pod
get_pods rm = elim rm.pod_lister [ some l ↦ l | none ↦ [] ]

-- GetConfigMap(name, namespace); the lister takes the namespace first.
unfoldable pub get_config_map : ResourceManager → String → String → Fetched ConfigMapObject
get_config_map rm name namespace = rm.config_map_lister namespace name

unfoldable pub get_secret : ResourceManager → String → String → Fetched SecretObject
get_secret rm name namespace = rm.secret_lister namespace name

unfoldable pub list_secrets : ResourceManager → String → Option (List SecretObject)
list_secrets rm namespace = rm.secrets_lister namespace

unfoldable pub list_config_maps : ResourceManager → String → Option (List ConfigMapObject)
list_config_maps rm namespace = rm.config_maps_lister namespace

unfoldable pub list_services : ResourceManager → Option (List Service)
list_services rm = rm.service_lister
