-- ===== src/Node/Controller.antt =====
-- internal/node/nodeutil/controller.go: NewNode, from its options to the node.
use virtual_kubelet_cmd.Base.{ℤ, pos, String, Bool, false, not, Option, none, some, List, [], ◌∷◌}
use virtual_kubelet_cmd.Base.Outcome.{Outcome, ok, err, panic, ◌>>=◌, ◌>>◌}
use virtual_kubelet_cmd.Errors.{Error, plain, wrapped}
use virtual_kubelet_cmd.Node.Config.{
  NodeCondition, NodeObject, Handler, NodeConfig, NodeOpt, apply_opts, get_http_handler,
}

-- What NewNode calls outside the program, or is given. A call that only can fail answers with its
-- error.
pub record Parts (C T P : Type 0) : Type 0 where
  pub num_cpu : ℤ
  pub getenv : String → String
  -- ClientsetFromEnv: a nil pointer on an error
  pub clientset_from_env : String → Option C
  -- net.SplitHostPort
  pub split_host_port : String → Option Error
  -- the provider, whether it comes with a node provider, and the node as ConfigureNode leaves it
  pub new_provider : NodeObject → Outcome Error (P × Bool × NodeObject)
  -- a method of the client, which may be a nil pointer
  pub core_v1 : Option C → Outcome Error (Unit {0})
  pub new_node_controller : NodeObject → Option Error
  pub new_pod_controller : P → Option Error

pub record Node (C T : Type 0) : Type 0 where
  pub client : Option C
  pub node_spec : NodeObject
  -- whether the ready callback marks the node as ready
  pub has_ready_cb : Bool
  pub has_broadcaster : Bool
  pub listen_addr : String
  pub handler : Option Handler
  pub tls_config : Option T
  pub workers : ℤ
  -- the two channels: whether they are closed
  pub ready : Bool
  pub done : Bool
  pub error : Option Error

abbrev condition : String → NodeCondition
condition t = record {
  type = t;
  status = "";
  reason = "";
  message = "";
  last_heartbeat_time = none;
  last_transition_time = none;
}

-- `if err != nil { return nil, errors.Wrap(err, msg) }`
abbrev pub wrap_if : String → Option Error → Outcome Error (Unit {0})
wrap_if m none = ok tt
wrap_if m (some e) = err (wrapped m e)

module _ {C T : Type 0} where
  -- The node, once the provider and the two controllers are made.
  unfoldable pub node_of : NodeConfig C T → Option C → Bool → NodeObject → Node C T
  unfolding get_http_handler
  node_of cfg client has_np spec = record {
    client = client;
    node_spec = spec;
    has_ready_cb = not has_np;
    has_broadcaster = not cfg.has_event_recorder;
    listen_addr = cfg.http_listen_addr;
    handler = some (get_http_handler cfg.stream_creation_timeout cfg.stream_idle_timeout);
    tls_config = cfg.tls_config;
    workers = cfg.num_workers;
    ready = false;
    done = false;
    error = none;
  }

module _ {P : Type 0} where
  -- `errors.Wrap(err, "error creating provider")`
  abbrev pub wrap_provider :
      Outcome Error (P × Bool × NodeObject) → Outcome Error (P × Bool × NodeObject)
  wrap_provider (ok p) = ok p
  wrap_provider (err e) = err (wrapped "error creating provider" e)
  wrap_provider panic = panic

module _ {C T P : Type 0} where
  unfoldable pub default_client_from_env : Parts C T P → String → Option (Option C)
  default_client_from_env parts path = some (parts.clientset_from_env path)

  -- The configuration before the options.
  unfoldable pub initial_config : Parts C T P → String → NodeConfig C T
  unfolding default_client_from_env
  initial_config parts name = record {
    client = default_client_from_env parts (parts.getenv "KUBECONFIG");
    node_spec = record {
      name = name;
      labels = some (
          ("type", "virtual-kubelet")
          ∷ ("kubernetes.io/role", "agent")
          ∷ ("kubernetes.io/hostname", name)
          ∷ []);
      provider_id = "";
      capacity = none;
      allocatable = none;
      addresses = [];
      daemon_endpoint_port = pos 0;
      taints = [];
      phase = "Pending";
      conditions =
          condition "Ready"
          ∷ condition "DiskPressure"
          ∷ condition "MemoryPressure"
          ∷ condition "PIDPressure"
          ∷ condition "NetworkUnavailable"
          ∷ [];
      architecture = "";
      operating_system = "";
      kubelet_version = "";
    };
    kubeconfig_path = parts.getenv "KUBECONFIG";
    informer_resync_period = pos 60000000000;
    http_listen_addr = ":10250";
    handler = none;
    stream_idle_timeout = pos 0;
    stream_creation_timeout = pos 0;
    debug_http = false;
    tls_config = none;
    has_event_recorder = false;
    has_route_attacher = false;
    num_workers = parts.num_cpu;
  }

  -- NewNode after the provider: the first use of the client, and the two controllers.
  unfoldable pub with_provider :
      Parts C T P → NodeConfig C T → Option C → P × Bool × NodeObject → Outcome Error (Node C T)
  unfolding node_of
  with_provider parts cfg client (p, has_np, spec) =
      parts.core_v1 client
      >> wrap_if "error creating node controller" (parts.new_node_controller spec)
      >> wrap_if "error creating pod controller" (parts.new_pod_controller p)
      >> ok (node_of cfg client has_np spec)

  unfoldable pub with_client_checked :
      Parts C T P → NodeConfig C T → Option (Option C) → Outcome Error (Node C T)
  unfolding with_provider
  with_client_checked parts cfg none = err (plain "no client provided")
  with_client_checked parts cfg (some client) =
      wrap_provider (parts.new_provider cfg.node_spec) >>= with_provider parts cfg client

  -- NewNode after the options.
  unfoldable pub with_config : Parts C T P → NodeConfig C T → Outcome Error (Node C T)
  unfolding with_client_checked
  with_config parts cfg =
      wrap_if "error parsing http listen address" (parts.split_host_port cfg.http_listen_addr)
      >> with_client_checked parts cfg cfg.client

  unfoldable pub new_node : Parts C T P → String → List (NodeOpt C T) → Outcome Error (Node C T)
  unfolding with_config apply_opts initial_config
  new_node parts name opts = apply_opts opts (initial_config parts name) >>= with_config parts
