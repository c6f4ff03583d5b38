-- ===== src/Root/Opts.antt =====
-- internal/commands/root/opts.go: the options and their defaults; http.go. Times are nanoseconds.
use virtual_kubelet_cmd.Base.{
  ℕ, String, Bool, Option, none, some, List, [], ◌∷◌, ◌==◌, string_equality, int_equality,
  nat_equality, if◌then◌else◌, ◌-◌, ◌%◌, ltb, ◌<>◌,
}
use virtual_kubelet_cmd.Base.Int.{ℤ, pos, negsuc, leb_int}
use virtual_kubelet_cmd.Base.Dict.{Dict}
use virtual_kubelet_cmd.Base.Outcome.{Outcome, ok, err, panic, ◌>>=◌}
use virtual_kubelet_cmd.Errors.{Error, plain, wrapped}

-- What the environment of the command answers: os.LookupEnv, os.Getenv, homedir.Dir ("" on an
-- error), filepath.Join, strconv.Atoi.
pub record Env : Type 0 where
  pub lookup_env : String → Option String
  pub home_dir : String
  pub path_join : List String → String
  pub atoi : String → Outcome Error ℤ
  pub itoa : ℤ → String

-- The defaults of the options. corev1.NamespaceAll is empty, and NoSchedule is the effect of corev1.
abbrev pub default_node_name : String
default_node_name = "virtual-kubelet"

abbrev default_operating_system : String
default_operating_system = "linux"

abbrev default_informer_resync_period : ℤ
default_informer_resync_period = pos 60000000000

abbrev default_metrics_addr : String
default_metrics_addr = ":10255"

abbrev pub default_listen_port : ℤ
default_listen_port = pos 10250

abbrev default_pod_sync_workers : ℤ
default_pod_sync_workers = pos 10

abbrev default_kube_namespace : String
default_kube_namespace = ""

abbrev default_kube_cluster_domain : String
default_kube_cluster_domain = "cluster.local"

abbrev pub default_taint_effect : String
default_taint_effect = "NoSchedule"

abbrev pub default_taint_key : String
default_taint_key = "virtual-kubelet.io/provider"

abbrev default_stream_idle_timeout : ℤ
default_stream_idle_timeout = pos 30000000000

abbrev default_stream_creation_timeout : ℤ
default_stream_creation_timeout = pos 30000000000

abbrev default_provider_config_path : String
default_provider_config_path = ""

-- os.Getenv
abbrev pub or_empty : Option String → String
or_empty none = ""
or_empty (some v) = v

abbrev pub getenv : Env → String → String
getenv e k = or_empty (e.lookup_env k)

-- getEnv of flag.go
abbrev pub value_or : String → Option String → String
value_or d none = d
value_or d (some v) = v

unfoldable pub get_env : Env → String → String → String
get_env e key default_value = value_or default_value (e.lookup_env key)

-- TracingExporterOptions. A map is none before it is made.
pub record TracingExporterOptions : Type 0 where
  pub tags : Option (Dict String String)
  pub service_name : String

pub record Opts : Type 0 where
  pub kube_config_path : String
  pub kube_namespace : String
  pub kube_cluster_domain : String
  pub listen_port : ℤ
  pub node_name : String
  pub operating_system : String
  pub provider : String
  pub provider_config_path : String
  pub taint_key : String
  pub taint_effect : String
  pub disable_taint : Bool
  pub metrics_addr : String
  pub pod_sync_workers : ℤ
  pub informer_resync_period : ℤ
  pub enable_node_lease : Bool
  pub trace_exporters : List String
  pub trace_sample_rate : String
  pub trace_config : TracingExporterOptions
  pub startup_timeout : ℤ
  pub stream_idle_timeout : ℤ
  pub stream_creation_timeout : ℤ
  pub version : String

-- `if s == "" { s = d }`, and the same for a number and 0.
abbrev pub text_or : String → String → String
text_or d s = if s == "" then d else s

abbrev pub number_or : ℤ → ℤ → ℤ
number_or d n = if n == pos 0 then d else n

-- The signed value of a 32-bit word.
abbrev pub signed : ℕ → ℤ
signed m = if ltb m 2147483648 then pos m else negsuc (4294967295 - m)

-- int32(p)
unfoldable pub to_int32 : ℤ → ℤ
to_int32 (pos n) = signed (n % 4294967296)
to_int32 (negsuc n) = signed (4294967295 - n % 4294967296)

abbrev pub max_int32 : ℤ
max_int32 = pos 2147483647

-- The port that the text of KUBELET_PORT stands for.
unfoldable pub checked_port : Outcome Error ℤ → Outcome Error ℤ
unfolding to_int32
checked_port (ok p) =
    if leb_int p max_int32
    then ok (to_int32 p)
    else err (plain "KUBELET_PORT environment variable is too large")
checked_port (err e) = err (wrapped "error parsing KUBELET_PORT environment variable" e)
checked_port panic = panic

unfoldable pub port_from_env : Env → String → Outcome Error ℤ
unfolding checked_port
port_from_env e kp = if kp == "" then ok default_listen_port else checked_port (e.atoi kp)

unfoldable pub listen_port_or : Env → ℤ → Outcome Error ℤ
unfolding port_from_env
listen_port_or e p = if p == pos 0 then port_from_env e (getenv e "KUBELET_PORT") else ok p

abbrev pub home_config : Env → String → String
home_config e path =
    if path == ""
    then if e.home_dir == "" then "" else e.path_join (e.home_dir ∷ ".kube" ∷ "config" ∷ [])
    else path

unfoldable pub kube_config_path_or : Env → String → String
kube_config_path_or e path = if path == "" then home_config e (getenv e "KUBECONFIG") else path

-- The other fields, once the port is known.
unfoldable pub with_defaults : Env → Opts → ℤ → Opts
unfolding get_env kube_config_path_or
with_defaults e c port = record c {
  operating_system = text_or default_operating_system c.operating_system;
  node_name = text_or (get_env e "DEFAULT_NODE_NAME" default_node_name) c.node_name;
  informer_resync_period = number_or default_informer_resync_period c.informer_resync_period;
  metrics_addr = text_or default_metrics_addr c.metrics_addr;
  pod_sync_workers = number_or default_pod_sync_workers c.pod_sync_workers;
  trace_config = record c.trace_config {
    service_name = text_or default_node_name c.trace_config.service_name;
  };
  listen_port = port;
  kube_namespace = text_or default_kube_namespace c.kube_namespace;
  kube_cluster_domain = text_or default_kube_cluster_domain c.kube_cluster_domain;
  taint_key = text_or default_taint_key c.taint_key;
  taint_effect = text_or default_taint_effect c.taint_effect;
  kube_config_path = kube_config_path_or e c.kube_config_path;
  stream_idle_timeout = number_or default_stream_idle_timeout c.stream_idle_timeout;
  stream_creation_timeout = number_or default_stream_creation_timeout c.stream_creation_timeout;
  provider_config_path = text_or default_provider_config_path c.provider_config_path;
}

-- SetDefaultOpts. Its caller gives up on an error, so the fields that are set before it are not kept.
unfoldable pub set_default_opts : Env → Opts → Outcome Error Opts
unfolding listen_port_or with_defaults
set_default_opts e c = listen_port_or e c.listen_port >>= λ port. ok (with_defaults e c port)

-- apiServerConfig and getAPIConfig of http.go
pub record ApiServerConfig : Type 0 where
  pub cert_path : String
  pub key_path : String
  pub ca_cert_path : String
  pub addr : String
  pub metrics_addr : String
  pub stream_idle_timeout : ℤ
  pub stream_creation_timeout : ℤ

unfoldable pub get_api_config : Env → Opts → ApiServerConfig
get_api_config e c = record {
  cert_path = getenv e "APISERVER_CERT_LOCATION";
  key_path = getenv e "APISERVER_KEY_LOCATION";
  ca_cert_path = getenv e "APISERVER_CA_CERT_LOCATION";
  addr = ":" <> e.itoa c.listen_port;
  metrics_addr = c.metrics_addr;
  stream_idle_timeout = c.stream_idle_timeout;
  stream_creation_timeout = c.stream_creation_timeout;
}
