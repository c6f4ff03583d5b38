-- ===== src/Root/Command.antt =====
-- internal/commands/root/root.go: runRootCommand. `C` is the type of API clients, `K` of REST
-- configurations, `CA` of providers of CA certificates, `X` of trace exporters, and `P` of providers.
pub mod Served
pub mod Ends
use virtual_kubelet_cmd.Base.{
  String, Bool, true, false, not, Option, none, some, List, [], ◌∷◌, ◌++◌, ℤ, pos, ◌==◌, ◌≡◌,
  int_equality, string_equality, if◌then◌else◌, ◌<>◌,
}
use virtual_kubelet_cmd.Base.Dict.{Dict}
use virtual_kubelet_cmd.Base.Outcome.{Outcome, ok, err, panic, ◌>>=◌, ◌>>◌}
use virtual_kubelet_cmd.Errors.{Error, invalid_input, plain}
use virtual_kubelet_cmd.Manager.{ResourceManager, new_resource_manager}
use virtual_kubelet_cmd.Node.Client.{ClientGo, wrap_err, clientset_from_env}
use virtual_kubelet_cmd.Node.Config.{
  Taint, NodeObject, Handler, serve_mux, behind_auth, instrumented, or_nil, NodeConfig, NodeOpt,
  with_client,
}
use virtual_kubelet_cmd.Node.Controller.{Parts, Node, new_node}
use virtual_kubelet_cmd.Node.Run.{Events, run, WaitReady, node_err}
use virtual_kubelet_cmd.Node.Tls.{
  Certs, TlsConfig, with_tls_config, with_key_pair_from_path, maybe_ca,
}
use virtual_kubelet_cmd.Node.Webhook.{AuthParts, WebhookAuthOption, no_auth, webhook_auth}
use virtual_kubelet_cmd.Root.Opts.{Env, Opts, ApiServerConfig, getenv, get_api_config}
use virtual_kubelet_cmd.Root.Store.{InitConfig, valid_operating_system, get}
use virtual_kubelet_cmd.Root.Taint.{get_taint}
use virtual_kubelet_cmd.Root.Tracing.{Tracer, Effect, setup_tracing}

-- What the command calls outside, or is given.
pub record System (C K CA X P : Type 0) : Type 0 where
  pub env : Env
  pub client_go : ClientGo K C
  pub certs : Certs
  pub auth_parts : AuthParts C CA
  -- dynamiccertificates.NewDynamicCAContentFromFile
  pub ca_content_from_file : String → Outcome Error CA
  pub tracer : Tracer X
  -- runtime.GOARCH and runtime.NumCPU
  pub goarch : String
  pub num_cpu : ℤ
  -- the listers of the informers
  pub listers : ResourceManager
  pub store : Dict String (InitConfig → Outcome Error P)
  -- ConfigureNode of a provider
  pub configure_node : P → NodeObject → Outcome Error NodeObject
  -- net.SplitHostPort, and the library's calls in NewNode
  pub split_host_port : String → Option Error
  pub core_v1 : Option C → Outcome Error (Unit {0})
  pub new_node_controller : NodeObject → Option Error
  pub new_pod_controller : P → Option Error

-- A client pointer, which is nil on an error.
abbrev pub client_or_nil : {C : Type 0} → Outcome Error C → Option C
client_or_nil (ok c) = some c
client_or_nil (err e) = none
client_or_nil panic = none

abbrev pub taint_list : Option Taint → List Taint
taint_list none = []
taint_list (some t) = t ∷ []

-- `if !ok { return errdefs.InvalidInput(...) }`
abbrev pub require : Bool → Error → Outcome Error (Unit {0})
require b e = if b then ok tt else err e

-- AttachProviderRoutes, for a mux
unfoldable pub attach_provider_routes : {C : Type 0} → NodeOpt C TlsConfig
attach_provider_routes cfg = ok (record cfg { has_route_attacher = true })

module _ {C K CA X P : Type 0} where
  unfoldable pub init_config : System C K CA X P → Opts → ResourceManager → InitConfig
  init_config sys c rm = record {
    config_path = c.provider_config_path;
    node_name = c.node_name;
    operating_system = c.operating_system;
    internal_ip = getenv sys.env "VKUBELET_POD_IP";
    daemon_port = c.listen_port;
    kube_cluster_domain = c.kube_cluster_domain;
    resource_manager = rm;
  }

  -- newProvider from the init function on.
  unfoldable pub init_provider :
      System C K CA X P
      → Opts
      → NodeObject
      → InitConfig
      → Option (InitConfig → Outcome Error P)
      → Outcome Error (P × Bool × NodeObject)
  init_provider sys c n i none = err (plain ("provider " <> c.provider <> " not found"))
  init_provider sys c n i (some p_init) =
      wrap_err ("error initializing provider " <> c.provider) (p_init i) >>= λ p.
      sys.configure_node p n >>= λ n'. ok (p, false, record n' { kubelet_version = c.version })

  -- newProvider
  unfoldable pub new_provider :
      System C K CA X P → Opts → NodeObject → Outcome Error (P × Bool × NodeObject)
  unfolding init_config init_provider new_resource_manager
  new_provider sys c n =
      wrap_err "could not create resource manager" (new_resource_manager sys.listers) >>= λ rm.
      init_provider sys c n (init_config sys c rm) (get c.provider sys.store)

  abbrev pub parts_of : System C K CA X P → Opts → Parts C TlsConfig P
  parts_of sys c = record {
    num_cpu = sys.num_cpu;
    getenv = getenv sys.env;
    clientset_from_env = λ path. client_or_nil (clientset_from_env sys.client_go path);
    split_host_port = sys.split_host_port;
    new_provider = new_provider sys c;
    core_v1 = sys.core_v1;
    new_node_controller = sys.new_node_controller;
    new_pod_controller = sys.new_pod_controller;
  }

  -- The option that runRootCommand writes out.
  unfoldable pub root_option :
      System C K CA X P → Opts → Option Taint → ApiServerConfig → NodeOpt C TlsConfig
  root_option sys c taint api cfg = ok (record cfg {
    kubeconfig_path = c.kube_config_path;
    handler = some serve_mux;
    informer_resync_period = c.informer_resync_period;
    node_spec = record (cfg.node_spec) {
      taints = cfg.node_spec.taints ++ taint_list taint;
      architecture = sys.goarch;
      operating_system = c.operating_system;
    };
    http_listen_addr = api.addr;
    stream_creation_timeout = api.stream_creation_timeout;
    stream_idle_timeout = api.stream_idle_timeout;
    debug_http = true;
    num_workers = c.pod_sync_workers;
  })

  -- The option of WebhookAuth in setAuth.
  abbrev pub with_ca_content : System C K CA X P → String → WebhookAuthOption C CA
  with_ca_content sys path w =
      sys.ca_content_from_file path >>= λ ca. ok (record w { client_ca = some ca })

  -- setAuth
  unfoldable pub set_auth : System C K CA X P → String → ApiServerConfig → NodeOpt C TlsConfig
  unfolding no_auth webhook_auth
  set_auth sys node api cfg =
      if api.ca_cert_path == ""
      then ok (record cfg {
        handler = some (instrumented (behind_auth (no_auth sys.auth_parts) (or_nil cfg.handler)));
      })
      else webhook_auth sys.auth_parts cfg.client node (with_ca_content sys api.ca_cert_path ∷ [])
        >>= λ auth.
            ok
              (record cfg { handler = some (instrumented (behind_auth auth (or_nil cfg.handler))) })

  abbrev pub root_options :
      System C K CA X P → Opts → Option Taint → C → ApiServerConfig → List (NodeOpt C TlsConfig)
  root_options sys c taint client api =
      root_option sys c taint api
      ∷ with_client (some (some client))
      ∷ set_auth sys c.node_name api
      ∷ with_tls_config (
          with_key_pair_from_path sys.certs api.cert_path api.key_path
          ∷ maybe_ca sys.certs api.ca_cert_path
          ∷ [])
      ∷ attach_provider_routes
      ∷ []

  abbrev pub maybe_taint : System C K CA X P → Opts → Outcome Error (Option Taint)
  maybe_taint sys c = if c.disable_taint then ok none else get_taint sys.env c >>= λ t. ok (some t)

  -- NewNode and setupTracing, with the taint and the client.
  unfoldable pub make_node :
      System C K CA X P
      → Opts
      → Option Taint
      → C
      → Outcome Error (Node C TlsConfig × List (Effect X))
  unfolding root_option set_auth attach_provider_routes new_node
  make_node sys c taint client =
      new_node (parts_of sys c) c.node_name
        (root_options sys c taint client (get_api_config sys.env c))
      >>= λ n. setup_tracing sys.tracer sys.env c >>= λ done. ok (n, done)

  -- runRootCommand up to the start of the node.
  unfoldable pub set_up :
      System C K CA X P → Opts → Outcome Error (Node C TlsConfig × List (Effect X))
  unfolding make_node
  set_up sys c =
      require (valid_operating_system c.operating_system)
        (invalid_input ("operating system " <> c.operating_system <> " is not supported"))
      >> require (not (c.pod_sync_workers == pos 0))
          (invalid_input "pod sync workers must be greater than 0")
      >> (maybe_taint sys c >>= λ taint.
          clientset_from_env sys.client_go c.kube_config_path >>= λ client.
          make_node sys c taint client)

  -- The errors that runRootCommand can return, none for nil: its selects take any case that can
  -- proceed. `events` is what happens to the node once it runs, `startup` the error of the
  -- context with the startup timeout and `context` that of the context, if they are done.
  pub data RootCommand (sys : System C K CA X P) (c : Opts) (events : Events)
      (startup context : Option Error) : Option Error → Type 0 where
    fails : (e : Error) → set_up sys c ≡ err e → RootCommand sys c events startup context (some e)
    is_not_ready :
        (n : Node C TlsConfig) (done : List (Effect X)) (e : Error)
        → set_up sys c ≡ ok (n, done)
        → WaitReady (run events n).1 startup (some e)
        → RootCommand sys c events startup context (some e)
    is_cancelled :
        (n : Node C TlsConfig) (done : List (Effect X)) (e : Error)
        → set_up sys c ≡ ok (n, done)
        → WaitReady (run events n).1 startup none
        → context ≡ some e
        → RootCommand sys c events startup context none
    has_ended :
        (n : Node C TlsConfig) (done : List (Effect X))
        → set_up sys c ≡ ok (n, done)
        → WaitReady (run events n).1 startup none
        → (run events n).1.done ≡ true
        → RootCommand sys c events startup context (node_err (run events n).1)
