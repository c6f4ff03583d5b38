-- ===== src/Tests/Fixtures.antt =====
-- A host without processes, a disk and a shell on which everything works, and a small pod.
use virtual_kubelet_cmd.Base.{
  false, ◌==◌, string_equality, if◌then◌else◌, String, true, false, Option, none, some, List, [],
  ◌∷◌, ℤ, pos,
}
use virtual_kubelet_cmd.Base.Outcome.{Outcome, ok, err, panic}
use virtual_kubelet_cmd.Disk.{Disk}
use virtual_kubelet_cmd.Host.{Host}
use virtual_kubelet_cmd.Kube.{
  Container, ContainerStatus, StateTerminated, Phase, Pod, PodStatus, Time,
}
use virtual_kubelet_cmd.Manager.{ResourceManager, missing}
use virtual_kubelet_cmd.Mock.Command.Script.{Shell, timer_first}
use virtual_kubelet_cmd.Mock.Monitor.{terminated_with}
use virtual_kubelet_cmd.Mock.Kill.{Signals}
use virtual_kubelet_cmd.Mock.Provider.{Provider}
use virtual_kubelet_cmd.Root.Opts.{Env, Opts}

abbrev pub quiet_host : Host
quiet_host = record {
  now = 100;
  getenv = λ k. "/home/user";
  pids = some [];
  has_process = λ p. true;
  getpgid = λ p. some p;
  proc_stat = λ p. none;
  has_cmdline = λ p. true;
  process_state = λ p. "S";
  username_of = λ p. some "user";
  current_username = some "user";
  file_size = λ p. some 0;
  first_line = λ p. none;
  path_join = λ ps. "joined";
  path_dir = λ p. p;
  fields = λ s. [];
  atoi = λ s. (pos 7, true);
  itoa = λ n. "7";
}

abbrev pub good_disk : Disk
good_disk = record {
  mkdir_all = λ p. true;
  chown = λ p u g. true;
  temp_file = λ p. some "temp";
  write_file = λ p. true;
  rename = λ a b. true;
  remove_all = λ p. true;
  create = λ p. true;
  read_dir = λ p. some [];
  run_mkdir = λ p. true;
  run_cp = λ a b. true;
  parse_int = λ s. (pos 0, false);
  base64_decode = λ s. none;
}

abbrev pub shell : Shell
shell = record {
  launch = λ c. record { start_error = none; group = some (pos 7); race = timer_first };
  environ = [];
  expand = λ s m. s;
  replace_all = λ s a b. s;
}

abbrev pub no_objects : ResourceManager
no_objects = record {
  pod_lister = some [];
  secret_lister = λ a b. missing;
  secrets_lister = λ a. some [];
  config_map_lister = λ a b. missing;
  config_maps_lister = λ a. some [];
  service_lister = some [];
}

abbrev pub no_pods : Provider
no_pods = record { pods = []; notified = []; acts = [] }

abbrev pub main_container : Container
main_container = record {
  name = "main";
  image = "script";
  command = "bash" ∷ [];
  args = [];
  env = [];
  volume_mounts = [];
}

abbrev pub exit_with : ℤ → StateTerminated
exit_with code = record {
  exit_code = code;
  reason = "Completed";
  message = "";
  started_at = 5;
  finished_at = 9;
}

abbrev pub ended_status : ℤ → ContainerStatus
ended_status code = record {
  name = "main";
  state = terminated_with (exit_with code);
  ready = false;
  restart_count = 0;
  image = "script";
  image_id = "script";
  container_id = "7";
}

abbrev pub status_with : Phase → Option Time → List ContainerStatus → PodStatus
status_with phase start sts = record {
  phase = phase;
  reason = "";
  message = "";
  start_time = start;
  pod_ip = "";
  conditions = [];
  container_statuses = sts;
}

abbrev pub pod_with : String → String → PodStatus → Pod
pod_with namespace name status = record {
  namespace = namespace;
  name = name;
  uid = "";
  node_name = "vk";
  service_account = "";
  has_security_context = false;
  deletion_timestamp = none;
  containers = main_container ∷ [];
  volumes = [];
  status = status;
}

abbrev pub new_pod : Pod
new_pod = pod_with "default" "web" (status_with Phase.unset none [])

abbrev pub ended_pod : Pod
ended_pod =
    pod_with "default" "web" (status_with Phase.running (some 5) (ended_status (pos 0) ∷ []))

-- Every signal arrives, and every goroutine sees this host.
abbrev pub signals_at : Host → Signals
signals_at h = record {
  find_process = λ s p. true;
  delivers = λ s p. true;
  listing = λ st. h;
  seen = λ st s p. h;
}

abbrev pub no_signals : Signals
no_signals = signals_at quiet_host

abbrev pub value_of {ℓ κ} : {E : Type κ} {A : Type ℓ} → A → Outcome E A → A
value_of a (ok b) = b
value_of a (err e) = a
value_of a panic = a

abbrev pub env : Env
env = record {
  lookup_env = λ k. if k == "KUBELET_PORT" then some "8080" else none;
  home_dir = "/home/user";
  path_join = λ ps. "/home/user/.kube/config";
  atoi = λ s. ok (pos 8080);
  itoa = λ n. "8080";
}

abbrev pub no_opts : Opts
no_opts = record {
  kube_config_path = "";
  kube_namespace = "";
  kube_cluster_domain = "";
  listen_port = pos 0;
  node_name = "vk";
  operating_system = "";
  provider = "mock";
  provider_config_path = "";
  taint_key = "";
  taint_effect = "";
  disable_taint = false;
  metrics_addr = "";
  pod_sync_workers = pos 0;
  informer_resync_period = pos 0;
  enable_node_lease = false;
  trace_exporters = [];
  trace_sample_rate = "";
  trace_config = record { tags = none; service_name = "" };
  startup_timeout = pos 0;
  stream_idle_timeout = pos 0;
  stream_creation_timeout = pos 0;
  version = "";
}
