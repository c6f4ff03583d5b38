-- ===== src/Node/Config.antt =====
-- internal/node/nodeutil/controller.go: the configuration of a node, its options, the routes of
-- the HTTP API, and the ready condition. `C` is the type of API clients, `T` of TLS configurations.
use virtual_kubelet_cmd.Base.{
  String, Bool, not, Option, none, some, List, [], ◌∷◌, ℤ, ◌==◌, string_equality, if◌then◌else◌,
}
use virtual_kubelet_cmd.Base.Dict.{Dict}
use virtual_kubelet_cmd.Base.Outcome.{Outcome, ok, ◌>>=◌}
use virtual_kubelet_cmd.Errors.{Error}
use virtual_kubelet_cmd.Kube.{Time}
use virtual_kubelet_cmd.Node.Auth.{Auth}

-- v1.NodeCondition
pub record NodeCondition : Type 0 where
  pub type : String
  pub status : String
  pub reason : String
  pub message : String
  pub last_heartbeat_time : Option Time
  pub last_transition_time : Option Time

-- v1.Taint
pub record Taint : Type 0 where
  pub key : String
  pub value : String
  pub effect : String

-- resource.Quantity, by how the program makes it: Set of a number, or MustParse of a text.
pub data Quantity : Type 0 where
  number : ℤ → Quantity
  parsed : String → Quantity

-- v1.NodeAddress
pub record NodeAddress : Type 0 where
  pub type : String
  pub address : String

-- The fields of v1.Node that the program reads or writes. A map is none before it is made; the port
-- is that of the kubelet's endpoint.
pub record NodeObject : Type 0 where
  pub name : String
  pub labels : Option (Dict String String)
  pub provider_id : String
  pub capacity : Option (Dict String Quantity)
  pub allocatable : Option (Dict String Quantity)
  pub addresses : List NodeAddress
  pub daemon_endpoint_port : ℤ
  pub taints : List Taint
  pub phase : String
  pub conditions : List NodeCondition
  pub architecture : String
  pub operating_system : String
  pub kubelet_version : String

-- Where a route of the API goes.
pub data Endpoint : Type 0 where
  running_pods : Endpoint
  -- the time limits for the creation and for the idleness of a stream
  container_exec : ℤ → ℤ → Endpoint
  healthz : Endpoint
  pod_metrics_resource : Endpoint

pub record Route : Type 0 where
  pub path : String
  pub endpoint : Endpoint
  pub methods : List String

-- An http.Handler of the program: the router of GetHTTPHandler, a ServeMux, or a handler behind
-- the authentication of WithAuth. `instrumented` is what api.InstrumentHandler makes of one.
pub data Handler : Type 0 where
  router : List Route → Handler
  serve_mux : Handler
  behind_auth : Auth → Handler → Handler
  instrumented : Handler → Handler
  nil_handler : Handler

-- A handler as an interface value, which may be nil.
abbrev pub or_nil : Option Handler → Handler
or_nil none = nil_handler
or_nil (some h) = h

module _ (C T : Type 0) where
  -- The client is an interface value: none is nil, and `some none` holds a nil pointer.
  pub record NodeConfig : Type 0 where
    pub client : Option (Option C)
    pub node_spec : NodeObject
    pub kubeconfig_path : String
    -- times are in nanoseconds
    pub informer_resync_period : ℤ
    pub http_listen_addr : String
    pub handler : Option Handler
    pub stream_idle_timeout : ℤ
    pub stream_creation_timeout : ℤ
    pub debug_http : Bool
    pub tls_config : Option T
    pub has_event_recorder : Bool
    pub has_route_attacher : Bool
    pub num_workers : ℤ

  abbrev pub NodeOpt : Type 0
  NodeOpt = NodeConfig → Outcome Error NodeConfig

module _ {C T : Type 0} where
  -- WithNodeConfig
  unfoldable pub with_node_config : NodeConfig C T → NodeOpt C T
  with_node_config c orig = ok c

  -- WithClient
  unfoldable pub with_client : Option (Option C) → NodeOpt C T
  with_client c cfg = ok (record cfg { client = c })

  -- The loop over the options: each changes what the one before it left, and an error ends it.
  unfoldable pub apply_opts : List (NodeOpt C T) → NodeOpt C T
  apply_opts [] cfg = ok cfg
  apply_opts (o ∷ os) cfg = o cfg >>= apply_opts os

-- GetHTTPHandler, with the two time limits that it reads.
unfoldable pub get_http_handler : ℤ → ℤ → Handler
get_http_handler creation idle = router (
    record { path = "/pods"; endpoint = running_pods; methods = "GET" ∷ [] }
    ∷ record {
      path = "/exec/{namespace}/{pod}/{container}";
      endpoint = container_exec creation idle;
      methods = "POST" ∷ "GET" ∷ [];
    }
    ∷ record { path = "/healthz"; endpoint = healthz; methods = "GET" ∷ [] }
    ∷ record { path = "/metrics/resource"; endpoint = pod_metrics_resource; methods = "GET" ∷ [] }
    ∷ [])

abbrev pub ready_condition : Time → NodeCondition → NodeCondition
ready_condition now c = record c {
  message = "Kubelet is ready";
  reason = "KubeletReady";
  status = "True";
  last_heartbeat_time = some now;
  last_transition_time = some now;
}

-- The loop over the conditions: it writes the first of type Ready and returns.
unfoldable pub set_ready : Time → List NodeCondition → List NodeCondition
set_ready now [] = []
set_ready now (c ∷ cs) =
    if not (c.type == "Ready") then c ∷ set_ready now cs else ready_condition now c ∷ cs

-- setNodeReady
unfoldable pub set_node_ready : Time → NodeObject → NodeObject
unfolding set_ready
set_node_ready now n = record n { phase = "Running"; conditions = set_ready now n.conditions }
