-- ===== src/Kube.antt =====
-- The Kubernetes objects, with the fields that the program reads or writes. Times are seconds; the
-- zero `metav1.Time` is 0. A field that is a pointer in Go is an `Option`.
use virtual_kubelet_cmd.Base.{ℕ, String, Bool, Option, List, ℤ}
use virtual_kubelet_cmd.Base.Dict.{Dict}

abbrev pub Time : Type 0
Time = ℕ

pub record EnvVar : Type 0 where
  pub name : String
  pub value : String

pub record VolumeMount : Type 0 where
  pub name : String
  pub mount_path : String

pub record Container : Type 0 where
  pub name : String
  pub image : String
  pub command : List String
  pub args : List String
  pub env : List EnvVar
  pub volume_mounts : List VolumeMount

pub record StateRunning : Type 0 where
  pub started_at : Time

pub record StateTerminated : Type 0 where
  pub exit_code : ℤ
  pub reason : String
  pub message : String
  pub started_at : Time
  pub finished_at : Time

-- A waiting state is one where both fields are nil.
pub record ContainerState : Type 0 where
  pub running : Option StateRunning
  pub terminated : Option StateTerminated

pub record ContainerStatus : Type 0 where
  pub name : String
  pub state : ContainerState
  pub ready : Bool
  pub restart_count : ℕ
  pub image : String
  pub image_id : String
  pub container_id : String

-- `unset` is the empty string.
pub data Phase : Type 0 where
  unset pending running succeeded failed unknown : Phase

pub data ConditionType : Type 0 where
  scheduled ready initialized : ConditionType

pub record PodCondition : Type 0 where
  pub kind : ConditionType
  pub status : Bool
  pub last_transition : Time

pub record PodStatus : Type 0 where
  pub phase : Phase
  pub reason : String
  pub message : String
  pub start_time : Option Time
  pub pod_ip : String
  pub conditions : List PodCondition
  pub container_statuses : List ContainerStatus

-- The sources of a volume: the code tests the pointers in this order.
pub record SecretSource : Type 0 where
  pub secret_name : String
  pub optional : Option Bool

pub record ConfigMapSource : Type 0 where
  pub name : String
  pub optional : Option Bool

pub record KeyToPath : Type 0 where
  pub key : String
  pub path : String

pub record SecretProjection : Type 0 where
  pub name : String
  pub optional : Option Bool

pub record ConfigMapProjection : Type 0 where
  pub name : String
  pub optional : Option Bool
  pub items : List KeyToPath

pub record ProjectionSource : Type 0 where
  pub service_account_token : Bool
  pub secret : Option SecretProjection
  pub config_map : Option ConfigMapProjection

pub record PodVolume : Type 0 where
  pub name : String
  pub host_path : Bool
  pub empty_dir : Bool
  pub secret : Option SecretSource
  pub config_map : Option ConfigMapSource
  pub projected : Option (List ProjectionSource)

pub record Pod : Type 0 where
  pub namespace : String
  pub name : String
  pub uid : String
  pub node_name : String
  pub service_account : String
  pub has_security_context : Bool
  pub deletion_timestamp : Option Time
  pub containers : List Container
  pub volumes : List PodVolume
  pub status : PodStatus

pub record SecretObject : Type 0 where
  pub namespace : String
  pub name : String
  pub is_service_account_token : Bool
  pub annotations : Dict String String
  pub string_data : Dict String String
  pub bytes_data : Dict String String

pub record ConfigMapObject : Type 0 where
  pub namespace : String
  pub name : String
  pub text_data : Dict String String
  pub binary_data : Dict String String
