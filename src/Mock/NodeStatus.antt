-- ===== src/Mock/NodeStatus.antt =====
-- internal/provider/mock/mock.go: ConfigureNode and the alive-time loop. The labels of the node are a
-- map that may not have been made; a write to it panics then.
pub mod Alive
use virtual_kubelet_cmd.Base.{
  String, Bool, true, not, Option, none, some, List, [], ◌∷◌, ℤ, pos, ◌==◌, ℕ, string_equality,
  if◌then◌else◌, ◌<>◌,
}
use virtual_kubelet_cmd.Base.Dict.{Dict, insert}
use virtual_kubelet_cmd.Base.Int.{minus, leb_int, to_int64, quotient}
use virtual_kubelet_cmd.Base.Outcome.{Outcome, ok, panic, ◌>>=◌, ◌>>◌}
use virtual_kubelet_cmd.Errors.{Error}
use virtual_kubelet_cmd.Kube.{Time}
use virtual_kubelet_cmd.Mock.Config.{Machine, Settings, get_system_total_memory}
use virtual_kubelet_cmd.Node.Config.{
  Quantity, number, parsed, NodeAddress, NodeCondition, NodeObject,
}

-- resource.MustParse
abbrev pub must_parse : Machine → String → Outcome Error Quantity
must_parse m s = if m.parses s then ok (parsed s) else panic

-- capacity: the configured capacity is not read.
unfoldable pub capacity : Machine → Outcome Error (Dict String Quantity)
unfolding get_system_total_memory
capacity m =
    must_parse m
      (m.print_int (quotient (to_int64 (pos (get_system_total_memory m.sysinfo))) 1024) <> "Ki")
    >>= λ memory. must_parse m "1000" >>= λ pods.
        ok (("cpu", number m.num_cpu) ∷ ("memory", memory) ∷ ("pods", pods) ∷ [])

abbrev pub false_condition : Time → String → String → String → NodeCondition
false_condition now type reason message = record {
  type = type;
  status = "False";
  reason = reason;
  message = message;
  last_heartbeat_time = some now;
  last_transition_time = some now;
}

unfoldable pub node_conditions : Time → List NodeCondition
node_conditions now =
    false_condition now "Ready" "KubeletPending" "kubelet is pending."
    ∷ false_condition now "OutOfDisk" "KubeletHasSufficientDisk"
        "kubelet has sufficient disk space available"
    ∷ false_condition now "MemoryPressure" "KubeletHasSufficientMemory"
        "kubelet has sufficient memory available"
    ∷ false_condition now "DiskPressure" "KubeletHasNoDiskPressure" "kubelet has no disk pressure"
    ∷ false_condition now "NetworkUnavailable" "RouteCreated" "RouteController created a route"
    ∷ []

unfoldable pub node_addresses : Settings → List NodeAddress
node_addresses s = record { type = "InternalIP"; address = s.internal_ip } ∷ []

-- `n.ObjectMeta.Labels[k] = v`
abbrev pub set_labels :
    String → String → Option (Dict String String) → Outcome Error (Dict String String)
set_labels k v none = panic
set_labels k v (some m) = ok (insert k v m)

abbrev pub set_label : String → String → NodeObject → Outcome Error NodeObject
set_label k v n = set_labels k v n.labels >>= λ m. ok (record n { labels = some m })

-- The writes of ConfigureNode before its labels.
unfoldable pub with_status :
    Time → Settings → Dict String Quantity → Dict String Quantity → NodeObject → NodeObject
unfolding node_conditions node_addresses
with_status now s cap alloc n = record n {
  provider_id = if s.config.provider_id == "" then n.provider_id else s.config.provider_id;
  capacity = some cap;
  allocatable = some alloc;
  conditions = node_conditions now;
  addresses = node_addresses s;
  daemon_endpoint_port = s.daemon_endpoint_port;
  operating_system = if s.operating_system == "" then "linux" else s.operating_system;
  architecture = "amd64";
}

-- ConfigureNode, without the alive-time loop that it may start. `getenv` is os.Getenv.
unfoldable pub configure_node :
    Machine → (String → String) → Settings → NodeObject → Outcome Error NodeObject
unfolding capacity with_status
configure_node m getenv s n = capacity m >>= λ cap. capacity m >>= λ alloc.
    set_label "alpha.service-controller.kubernetes.io/exclude-balancer" "true"
      (with_status m.now s cap alloc n)
    >>= set_label "node.kubernetes.io/exclude-from-external-load-balancers" "true"
    >>= set_label "jiriaf.nodetype" (getenv "JIRIAF_NODETYPE")
    >>= set_label "jiriaf.site" (getenv "JIRIAF_SITE")

-- Whether ConfigureNode starts the loop.
unfoldable pub starts_alive_time_loop : (String → String) → Bool
starts_alive_time_loop getenv = not (getenv "JIRIAF_WALLTIME" == "0")

abbrev pub not_ready : NodeCondition → NodeCondition
not_ready c = record c { status = "False"; reason = "NodeNotReady"; message = "Node is not ready" }

-- `n.Status.Conditions[0]`
abbrev pub first_not_ready : List NodeCondition → Outcome Error (List NodeCondition)
first_not_ready [] = panic
first_not_ready (c ∷ cs) = ok (not_ready c ∷ cs)

-- The block for a node whose time is over.
unfoldable pub end_of_time : NodeObject → Outcome Error NodeObject
end_of_time n = set_label "jiriaf.alivetime" "0" n >>= λ n'.
    first_not_ready n'.conditions >>= λ cs. ok (record n' { conditions = cs })

-- strconv.ParseInt, whose error is dropped, and strconv.FormatInt
pub record Numbers : Type 0 where
  pub parse_int : String → ℤ
  pub format_int : ℤ → String

-- The time that is left: `elapsed` is in whole seconds.
unfoldable pub alive_time : Numbers → String → ℕ → ℤ
unfolding to_int64
alive_time num wall elapsed = to_int64 (minus (num.parse_int wall) elapsed)

-- notifyNodeAliveTime
unfoldable pub notify_node_alive_time : Numbers → String → ℕ → NodeObject → Outcome Error NodeObject
unfolding end_of_time alive_time
notify_node_alive_time num wall elapsed n =
    set_label "jiriaf.alivetime" (num.format_int (alive_time num wall elapsed)) n >>= λ n'.
    if leb_int (alive_time num wall elapsed) (pos 0) then end_of_time n' else ok n'

-- The rounds of the timer, each with the seconds since the start, until the context is done.
unfoldable pub alive_ticks : Numbers → String → List ℕ → NodeObject → Outcome Error NodeObject
unfolding notify_node_alive_time
alive_ticks num wall [] n = ok n
alive_ticks num wall (t ∷ ts) n = notify_node_alive_time num wall t n >>= alive_ticks num wall ts

-- aliveTimeLoop
unfoldable pub alive_time_loop :
    Numbers → (String → String) → List ℕ → NodeObject → Outcome Error NodeObject
unfolding alive_ticks
alive_time_loop num getenv ts n =
    set_label "jiriaf.walltime" (getenv "JIRIAF_WALLTIME") n
    >>= set_label "jiriaf.alivetime" (getenv "JIRIAF_WALLTIME")
    >>= alive_ticks num (getenv "JIRIAF_WALLTIME") ts
