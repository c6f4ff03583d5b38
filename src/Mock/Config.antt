-- ===== src/Mock/Config.antt =====
-- internal/provider/mock/mock.go: the configuration of the provider, NewMockProvider and loadConfig;
-- sys_linux.go; register.go.
pub mod Parsed
use virtual_kubelet_cmd.Base.{
  ℕ, String, Bool, Option, none, some, List, [], ◌∷◌, ℤ, pos, ◌==◌, ◌*◌, ◌^◌, ◌%◌, string_equality,
  if◌then◌else◌, ◌<>◌,
}
use virtual_kubelet_cmd.Base.Dict.{Dict, find}
use virtual_kubelet_cmd.Base.Int.{to_int64}
use virtual_kubelet_cmd.Base.Outcome.{Outcome, ok, err, panic, ◌>>=◌, ◌>>◌}
use virtual_kubelet_cmd.Errors.{Error, plain}
use virtual_kubelet_cmd.Kube.{Time}
use virtual_kubelet_cmd.Mock.Provider.{Provider}
use virtual_kubelet_cmd.Root.Store.{InitConfig, register}

-- MockConfig
pub record MockConfig : Type 0 where
  pub cpu : String
  pub memory : String
  pub pods : String
  pub others : Dict String String
  pub provider_id : String

abbrev no_config : MockConfig
no_config = record { cpu = ""; memory = ""; pods = ""; others = []; provider_id = "" }

-- The other fields of MockProvider: what it is made with.
pub record Settings : Type 0 where
  pub node_name : String
  pub operating_system : String
  pub internal_ip : String
  pub daemon_endpoint_port : ℤ
  pub config : MockConfig
  pub start_time : Time

-- What the configuration asks the machine and the libraries: runtime.NumCPU, syscall.Sysinfo (the
-- total RAM and its unit), time.Now, os.ReadFile, json.Unmarshal into a map of configurations,
-- whether resource.ParseQuantity takes a text, and strconv.FormatInt, which `%d` prints by.
pub record Machine : Type 0 where
  pub num_cpu : ℤ
  pub sysinfo : Option (ℕ × ℕ)
  pub now : Time
  pub read_file : String → Outcome Error String
  pub unmarshal : String → Outcome Error (Dict String MockConfig)
  pub parses : String → Bool
  pub print_int : ℤ → String

-- getSystemTotalMemory, as a uint64
unfoldable pub get_system_total_memory : Option (ℕ × ℕ) → ℕ
get_system_total_memory none = 0
get_system_total_memory (some (total, unit)) = total * unit % 2 ^ 64

abbrev pub default_if_empty : String → String → String
default_if_empty d s = if s == "" then d else s

-- `if config.CPU == "" { config.CPU = defaultCPUCapacity }` and the two beside it
unfoldable pub with_default_capacities : MockConfig → MockConfig
with_default_capacities c = record c {
  cpu = default_if_empty "20" c.cpu;
  memory = default_if_empty "100Gi" c.memory;
  pods = default_if_empty "20" c.pods;
}

-- loadConfig without a file: what the machine has.
unfoldable pub machine_config : Machine → MockConfig
unfolding get_system_total_memory to_int64
machine_config m = record no_config {
  cpu = m.print_int m.num_cpu;
  memory = m.print_int (to_int64 (pos (get_system_total_memory m.sysinfo)));
  pods = m.print_int (pos 1000);
}

-- The entry of the node: a configuration without it stays empty.
unfoldable pub node_config : Option MockConfig → MockConfig
unfolding with_default_capacities
node_config none = no_config
node_config (some c) = with_default_capacities c

-- `if _, err = resource.ParseQuantity(v); err != nil { return config, fmt.Errorf(...) }`
abbrev pub require_quantity : Machine → String → String → Outcome Error (Unit {0})
require_quantity m what v =
    if m.parses v then ok tt else err (plain ("invalid " <> what <> " value " <> v))

-- The loop over the other resources.
unfoldable pub check_others : Machine → Dict String String → Outcome Error (Unit {0})
check_others m [] = ok tt
check_others m ((k, v) ∷ rest) = require_quantity m "others" v >> check_others m rest

unfoldable pub check_config : Machine → MockConfig → Outcome Error MockConfig
unfolding check_others
check_config m c =
    require_quantity m "CPU" c.cpu
    >> require_quantity m "memory" c.memory
    >> require_quantity m "pods" c.pods
    >> check_others m c.others
    >> ok c

-- loadConfig
unfoldable pub load_config : Machine → String → String → Outcome Error MockConfig
unfolding machine_config check_config node_config
load_config m provider_config node_name =
    if provider_config == ""
    then ok (machine_config m)
    else m.read_file provider_config >>= m.unmarshal >>= λ configs.
        check_config m (node_config (find node_name configs))

-- NewMockProviderMockConfig
unfoldable pub new_mock_provider_mock_config :
    Machine → MockConfig → InitConfig → Settings × Provider
unfolding with_default_capacities
new_mock_provider_mock_config m config i = (
  record {
    node_name = i.node_name;
    operating_system = i.operating_system;
    internal_ip = i.internal_ip;
    daemon_endpoint_port = i.daemon_port;
    config = with_default_capacities config;
    start_time = m.now;
  },
  record { pods = []; notified = []; acts = [] },
)

-- NewMockProvider
unfoldable pub new_mock_provider : Machine → InitConfig → Outcome Error (Settings × Provider)
unfolding load_config new_mock_provider_mock_config
new_mock_provider m i =
    load_config m i.config_path i.node_name >>= λ c. ok (new_mock_provider_mock_config m c i)

abbrev pub InitFunc : Type 0
InitFunc = InitConfig → Outcome Error (Settings × Provider)

-- registerMock, whose call of Register drops the error.
unfoldable pub register_mock : Machine → Dict String InitFunc → Outcome Error (Dict String InitFunc)
unfolding register
register_mock m s = register "mock" (some (new_mock_provider m)) s
