-- ===== src/Node/Routes.antt =====
-- internal/node/nodeutil/provider.go: the interface of a provider, and the routes that
-- AttachProviderRoutes puts on a mux. `S` is the type of summaries, `M` of metric families.
use virtual_kubelet_cmd.Base.{String, Bool, true, List, [], ◌∷◌, ℤ, if◌then◌else◌}
use virtual_kubelet_cmd.Base.Outcome.{Outcome}
use virtual_kubelet_cmd.Errors.{Error}
use virtual_kubelet_cmd.Kube.{Pod}
use virtual_kubelet_cmd.Node.Config.{NodeConfig}

module _ (S M : Type 0) where
  -- Provider, by what its methods answer at one moment. A namespace, a pod and a container stand for
  -- the names; the streams of a call are left out, and the logs are the text that their reader gives.
  pub record Provider : Type 0 where
    -- of node.PodLifecycleHandler
    pub get_pods : Outcome Error (List Pod)
    pub get_container_logs : String → String → String → Outcome Error String
    pub run_in_container : String → String → String → List String → Outcome Error (Unit {0})
    pub attach_to_container : String → String → String → Outcome Error (Unit {0})
    pub get_stats_summary : Outcome Error S
    pub get_metrics_resource : Outcome Error M
    pub port_forward : String → String → ℤ → Outcome Error (Unit {0})

  -- api.PodHandlerConfig, as AttachProviderRoutes fills it
  pub record PodHandlerConfig : Type 0 where
    pub run_in_container : String → String → String → List String → Outcome Error (Unit {0})
    pub attach_to_container : String → String → String → Outcome Error (Unit {0})
    pub get_container_logs : String → String → String → Outcome Error String
    pub get_pods : Outcome Error (List Pod)
    pub get_pods_from_kubernetes : Outcome Error (List Pod)
    pub get_stats_summary : Outcome Error S
    pub get_metrics_resource : Outcome Error M
    pub stream_idle_timeout : ℤ
    pub stream_creation_timeout : ℤ
    pub port_forward : String → String → ℤ → Outcome Error (Unit {0})

  -- mux.Handle of api.PodHandler with a configuration and the debug routes
  pub record Registration : Type 0 where
    pub pattern : String
    pub config : PodHandlerConfig
    pub debug : Bool

module _ {C T S M : Type 0} where
  -- The route attacher: what it puts on the mux, given the provider, the configuration and what the
  -- lister of the pods answers.
  unfoldable pub route_attacher :
      Provider S M → NodeConfig C T → Outcome Error (List Pod) → Registration S M
  route_attacher p cfg pods = record {
    pattern = "/";
    config = record {
      run_in_container = p.run_in_container;
      attach_to_container = p.attach_to_container;
      get_container_logs = p.get_container_logs;
      get_pods = p.get_pods;
      get_pods_from_kubernetes = pods;
      get_stats_summary = p.get_stats_summary;
      get_metrics_resource = p.get_metrics_resource;
      stream_idle_timeout = cfg.stream_idle_timeout;
      stream_creation_timeout = cfg.stream_creation_timeout;
      port_forward = p.port_forward;
    };
    debug = true;
  }

  -- NewNode calls the attacher if an option has set one.
  unfoldable pub attach_routes :
      Provider S M → NodeConfig C T → Outcome Error (List Pod) → List (Registration S M)
  unfolding route_attacher
  attach_routes p cfg pods = if cfg.has_route_attacher then route_attacher p cfg pods ∷ [] else []
