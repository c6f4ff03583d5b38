-- ===== src/Tests/Measures.antt =====
-- The theorems on the metrics, the stats, the node status and the configuration, at small systems.
-- Floats are natural numbers.
use text.Mathlib.TextLemmas.{append_cancel_right}
use virtual_kubelet_cmd.Base.{
  ℕ, String, true, false, none, some, [], ◌∷◌, ◌++◌, pos, ◌≡◌, refl, ◌==◌, ◌+◌, ◌<◌, ◌↔◌,
  string_equality, if◌then◌else◌, All, arith, ap, ◌<>◌,
}
use virtual_kubelet_cmd.Base.Dict.{Dict, insert, find}
use virtual_kubelet_cmd.Base.Outcome.{ok}
use virtual_kubelet_cmd.Host.{Host}
use virtual_kubelet_cmd.Kube.{Pod, Phase}
use virtual_kubelet_cmd.Mock.Config.{Machine, MockConfig, load_config}
use virtual_kubelet_cmd.Mock.Config.Parsed.{entry_config, load_config_iff, AreQuantities}
use virtual_kubelet_cmd.Mock.Meters.{Meters, get_pgids_from_pod, pgid_file, read_pgid_from_file}
use virtual_kubelet_cmd.Mock.Meters.Groups.{get_pgids_from_pod-Known, Distinct, IsKnown}
use virtual_kubelet_cmd.Mock.Command.Parallel.{Sent, record_group}
use virtual_kubelet_cmd.Mock.Meters.Recorded.{record_group-read_pgid, JoinsFlat}
use virtual_kubelet_cmd.Mock.Metrics.{get_metrics_resource}
use virtual_kubelet_cmd.Mock.Metrics.Exposed.{
  get_metrics_resource-samples, family_named, of_family, samples,
}
use virtual_kubelet_cmd.Mock.Metrics.Typed.{get_metrics_resource-IsTyped, FamilyIsTyped}
use virtual_kubelet_cmd.Mock.NodeStatus.{Numbers, alive_time_loop}
use virtual_kubelet_cmd.Mock.NodeStatus.Alive.{
  alive_time_loop_shown, alive_label, any_over, expired,
}
use virtual_kubelet_cmd.Mock.Stats.{get_stats_summary}
use virtual_kubelet_cmd.Mock.Stats.Totals.{get_stats_summary-AreTotals, IsTotal}
use virtual_kubelet_cmd.Node.Config.{NodeCondition, NodeObject}
use virtual_kubelet_cmd.Tests.Fixtures.{
  quiet_host, good_disk, shell, new_pod, main_container, value_of, pod_with, status_with,
}

abbrev meters : Meters ℕ
meters = record {
  zero_float = 0;
  tiny = 1;
  add = λ a b. a + b;
  of_uint64 = λ n. n;
  cpu_times = some ((3, 4) ∷ []);
  used_memory = some 4096;
  process_times = λ p. some (1, 2);
  process_rss = λ p. some 10;
}

-- A host where each file holds the number 7.
abbrev busy_host : Host
busy_host = record quiet_host {
  pids = some (pos 7 ∷ []);
  first_line = λ p. some "7";
  proc_stat = λ p. some "7 (sh) S 7";
  fields = λ s. "7" ∷ "(sh)" ∷ "S" ∷ "7" ∷ [];
}

abbrev running_pod : Pod
running_pod = pod_with "default" "web" (status_with Phase.running (some 5) [])

abbrev pods : Dict String Pod
pods = ("default-web", running_pod) ∷ ("default-new", new_pod) ∷ []

abbrev family : String
family = "container_cpu_usage_seconds_total"

get_metrics_resource-samples_example :
    family_named family (get_metrics_resource busy_host meters "vk" pods)
    ≡ of_family family (samples busy_host meters "vk" pods)
get_metrics_resource-samples_example =
    get_metrics_resource-samples busy_host meters "vk" pods family

get_metrics_resource-IsTyped_example :
    All FamilyIsTyped (get_metrics_resource busy_host meters "vk" pods)
get_metrics_resource-IsTyped_example = get_metrics_resource-IsTyped busy_host meters "vk" pods

finds_groups : get_pgids_from_pod busy_host running_pod ≡ some (pos 7 ∷ [], ("main", pos 7) ∷ [])
unfolding get_pgids_from_pod insert
finds_groups = refl

get_pgids_from_pod-Known_example :
    Distinct (pos 7 ∷ [])
    × All (IsKnown busy_host running_pod (pos 7 ∷ []) (("main", pos 7) ∷ [])) running_pod.containers
get_pgids_from_pod-Known_example =
    get_pgids_from_pod-Known busy_host running_pod (pos 7 ∷ []) (("main", pos 7) ∷ []) finds_groups

abbrev draws : ℕ → ℕ
draws n = 4294967295

draws_small : (n : ℕ) → draws n < 4294967296
draws_small n = omega arith

get_stats_summary-AreTotals_example : All IsTotal (get_stats_summary draws 100 "vk" 5 pods).pods
get_stats_summary-AreTotals_example =
    get_stats_summary-AreTotals draws 100 "vk" 5 pods draws_small (omega arith, (omega arith, tt))

-- A wall time that is not set.
abbrev numbers : Numbers
numbers = record { parse_int = λ s. pos 0; format_int = λ n. "-5" }

abbrev unset : String → String
unset k = ""

abbrev ready : NodeCondition
ready = record {
  type = "Ready";
  status = "True";
  reason = "KubeletReady";
  message = "Kubelet is ready";
  last_heartbeat_time = none;
  last_transition_time = none;
}

abbrev node : NodeObject
node = record {
  name = "vk";
  labels = some (("type", "virtual-kubelet") ∷ []);
  provider_id = "";
  capacity = none;
  allocatable = none;
  addresses = [];
  daemon_endpoint_port = pos 10250;
  taints = [];
  phase = "Running";
  conditions = ready ∷ [];
  architecture = "amd64";
  operating_system = "linux";
  kubelet_version = "";
}

-- The first tick leaves the node not ready.
alive_time_loop_shown_example :
    alive_time_loop numbers unset ([] ++ 5 ∷ []) node
    ≡ ok (record node {
      labels = some (
          insert "jiriaf.alivetime"
            (alive_label numbers "" 5)
            (insert "jiriaf.walltime" "" (("type", "virtual-kubelet") ∷ [])));
      conditions = expired (any_over numbers "" ([] ++ 5 ∷ [])) ready ∷ [];
    })
alive_time_loop_shown_example =
    alive_time_loop_shown numbers unset node (("type", "virtual-kubelet") ∷ []) ready [] [] 5 refl
      refl

abbrev config : MockConfig
config = record { cpu = "4"; memory = ""; pods = "10"; others = []; provider_id = "" }

abbrev machine : Machine
machine = record {
  num_cpu = pos 4;
  sysinfo = some (8192, 1);
  now = 100;
  read_file = λ p. ok "json";
  unmarshal = λ s. ok (("vk", config) ∷ []);
  parses = λ s. if s == "" then false else true;
  print_int = λ n. "8";
}

abbrev configs : Dict String MockConfig
configs = ("vk", config) ∷ []

abbrev completed : MockConfig
completed = record config { memory = "100Gi" }

load_config_iff_example :
    (load_config machine "/etc/vk" "vk" ≡ ok completed)
    ↔ ((entry_config (find "vk" configs) ≡ completed) × AreQuantities machine completed)
load_config_iff_example =
    load_config_iff machine "/etc/vk" "vk" "json" configs completed refl refl refl

abbrev same_path : JoinsFlat busy_host
same_path xs y = refl

abbrev sent : Sent
sent =
    value_of (record { error = none; status = none; pgid_file = none })
      (record_group busy_host good_disk shell running_pod 5 main_container "script" (pos 7))

sends :
    record_group busy_host good_disk shell running_pod 5 main_container "script" (pos 7) ≡ ok sent
unfolding record_group
sends = refl

writes : sent.pgid_file ≡ some ("joined", "7\n")
unfolding record_group
writes = refl

abbrev last_line : String → String
last_line s = s <> "\n"

one_line : (line : String) → "7\n" ≡ last_line line → busy_host.first_line "joined" ≡ some line
one_line line e = ap some (append_cancel_right "7" line "\n" e)

record_group-read_pgid_example :
    read_pgid_from_file busy_host (pgid_file busy_host running_pod main_container) ≡ some (pos 7)
record_group-read_pgid_example =
    record_group-read_pgid busy_host running_pod main_container (pos 7) good_disk shell 5 "script"
      busy_host sent "joined" "7\n" same_path (refl, refl, refl, one_line) sends writes
