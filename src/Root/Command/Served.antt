-- ===== src/Root/Command/Served.antt =====
-- The node that runRootCommand starts.
use virtual_kubelet_cmd.Base.{
  String, Bool, true, false, Option, none, some, List, [], ◌∷◌, pos, ◌==◌, ◌≡◌, refl, subst,
  int_equality, string_equality, ◌<>◌, inl, inr, Bool-cases,
}
use virtual_kubelet_cmd.Base.Outcome.{
  Outcome, ok, err, panic, ◌>>=◌, ◌>>◌, Ensures, Ensures-bind, Ensures-trivial, Ensures-of,
  Ensures-weaken, Ensures-both,
}
use virtual_kubelet_cmd.Errors.{Error}
use virtual_kubelet_cmd.Manager.{new_resource_manager}
use virtual_kubelet_cmd.Node.ClientCa.{Verifies, root_tls_opts-Verifies}
use virtual_kubelet_cmd.Node.Client.{wrap_err, clientset_from_env}
use virtual_kubelet_cmd.Node.Config.{
  Taint, NodeObject, NodeConfig, get_http_handler, with_client, apply_opts, behind_auth,
  instrumented, or_nil,
}
use virtual_kubelet_cmd.Node.Controller.{
  Node, new_node, with_config, with_client_checked, with_provider, node_of, initial_config, wrap_if,
  wrap_provider,
}
use virtual_kubelet_cmd.Node.Tls.{
  TlsConfig, with_tls_config, with_key_pair_from_path, maybe_ca, apply_tls_opts, base_tls_config,
}
use virtual_kubelet_cmd.Node.Webhook.{webhook_auth}
use virtual_kubelet_cmd.Root.Command.{
  System, root_option, set_auth, attach_provider_routes, root_options, parts_of, make_node,
  maybe_taint, set_up, new_provider, init_provider, init_config, with_ca_content,
}
use virtual_kubelet_cmd.Root.Opts.{Opts, ApiServerConfig, getenv, get_api_config}
use virtual_kubelet_cmd.Root.Store.{InitConfig, valid_operating_system, get}
use virtual_kubelet_cmd.Root.Tracing.{Effect, setup_tracing}

module _ {C K CA X P : Type 0} (sys : System C K CA X P) (c : Opts) where
  abbrev no_ca : Bool
  no_ca = getenv sys.env "APISERVER_CA_CERT_LOCATION" == ""

  -- What the options leave in the configuration.
  abbrev IsRooted : NodeConfig C TlsConfig → Type 0
  IsRooted cfg =
      (cfg.http_listen_addr ≡ ":" <> sys.env.itoa c.listen_port)
      × (cfg.stream_creation_timeout ≡ c.stream_creation_timeout)
      × (cfg.stream_idle_timeout ≡ c.stream_idle_timeout)
      × (cfg.num_workers ≡ c.pod_sync_workers)

  abbrev IsConfigured : NodeConfig C TlsConfig → Type 0
  IsConfigured cfg = IsRooted cfg × Verifies no_ca cfg.tls_config

  -- The node listens on the port of the options with the TLS options of the environment, serves the
  -- router with the time limits of the options, has as many workers as they say, and is not started.
  abbrev pub Serves : Node C TlsConfig → Type 0
  Serves n =
      (n.listen_addr ≡ ":" <> sys.env.itoa c.listen_port)
      × (n.handler ≡ some (get_http_handler c.stream_creation_timeout c.stream_idle_timeout))
      × (n.workers ≡ c.pod_sync_workers)
      × Verifies no_ca n.tls_config
      × (n.node_spec.kubelet_version ≡ c.version)
      × (n.has_ready_cb ≡ true)
      × (n.ready ≡ false)

  auth-Ensures :
      (api : ApiServerConfig) (cfg : NodeConfig C TlsConfig)
      → IsRooted cfg
      → Ensures IsRooted (set_auth sys c.node_name api cfg)
  unfolding set_auth
  auth-Ensures api cfg h = elim (Bool-cases (api.ca_cert_path == "")) [
    | inl e ↦ rw e h
    | inr e ↦
        let auth =
          webhook_auth sys.auth_parts cfg.client c.node_name
            (with_ca_content sys api.ca_cert_path ∷ []) in
        rw e (
          Ensures-bind (λ _. Unit {0}) IsRooted auth
            (λ a.
              ok
                (record cfg { handler = some (instrumented (behind_auth a (or_nil cfg.handler))) }))
            (Ensures-trivial auth) (λ a u. h))
  ]

  tls-Keeps :
      (opts : List (TlsConfig → Outcome Error TlsConfig)) (cfg : NodeConfig C TlsConfig)
      → IsRooted cfg
      → Ensures IsRooted (with_tls_config opts cfg)
  unfolding with_tls_config
  tls-Keeps opts cfg h =
      Ensures-bind (λ _. Unit {0}) IsRooted (apply_tls_opts opts base_tls_config)
        (λ t. ok (record cfg { tls_config = some t }))
        (Ensures-trivial (apply_tls_opts opts base_tls_config)) (λ t u. h)

  tls-Ensures :
      (cert key : String) (cfg : NodeConfig C TlsConfig)
      → IsRooted cfg
      → Ensures IsConfigured (
          with_tls_config
            (with_key_pair_from_path sys.certs cert key
              ∷ maybe_ca sys.certs (getenv sys.env "APISERVER_CA_CERT_LOCATION")
              ∷ [])
            cfg)
  tls-Ensures cert key cfg h =
      let ca = getenv sys.env "APISERVER_CA_CERT_LOCATION" in
      let opts = with_key_pair_from_path sys.certs cert key ∷ maybe_ca sys.certs ca ∷ [] in
      Ensures-of IsConfigured (with_tls_config opts cfg) (λ cfg' e. (
        subst (Ensures IsRooted) e (tls-Keeps opts cfg h),
        root_tls_opts-Verifies sys.certs cfg cert key ca cfg' e,
      ))

  options-Ensure :
      (taint : Option Taint) (client : C) (cfg : NodeConfig C TlsConfig)
      → Ensures IsConfigured
          (apply_opts (root_options sys c taint client (get_api_config sys.env c)) cfg)
  unfolding apply_opts root_option with_client get_api_config attach_provider_routes
  options-Ensure taint client cfg =
      Ensures-bind IsRooted IsConfigured (set_auth sys c.node_name (get_api_config sys.env c) _) _
        (auth-Ensures (get_api_config sys.env c) _ (refl, refl, refl, refl))
        (λ a h.
          Ensures-bind IsConfigured IsConfigured (with_tls_config _ a) _ (tls-Ensures _ _ a h)
            (λ b k. k))

  -- What newProvider gives: no node provider, and a node with the version of the options.
  abbrev IsProvided : P × Bool × NodeObject → Type 0
  IsProvided (p, has_np, n) = (has_np ≡ false) × (n.kubelet_version ≡ c.version)

  init_provider-Ensures :
      (n : NodeObject) (i : InitConfig) (f : Option (InitConfig → Outcome Error P))
      → Ensures IsProvided (init_provider sys c n i f)
  unfolding init_provider
  init_provider-Ensures n i none = tt
  init_provider-Ensures n i (some f) =
      Ensures-bind (λ _. Unit {0}) IsProvided
        (wrap_err ("error initializing provider " <> c.provider) (f i)) _ (Ensures-trivial _)
        (λ p u.
          Ensures-bind (λ _. Unit {0}) IsProvided (sys.configure_node p n) _ (Ensures-trivial _)
            (λ n' u. (refl, refl)))

  new_provider-Ensures : (n : NodeObject) → Ensures IsProvided (new_provider sys c n)
  unfolding new_provider
  new_provider-Ensures n =
      Ensures-bind (λ _. Unit {0}) IsProvided
        (wrap_err "could not create resource manager" (new_resource_manager sys.listers)) _
        (Ensures-trivial
          (wrap_err "could not create resource manager" (new_resource_manager sys.listers)))
        (λ rm u. init_provider-Ensures n (init_config sys c rm) (get c.provider sys.store))

  -- In the rest, a predicate of the node that the provider ensures is followed to the end.
  module _ (Q : NodeObject → Type 0)
      (q : (n : NodeObject) → Ensures (λ v. Q v.2) (new_provider sys c n)) where
    abbrev IsProvidedSpec : P × Bool × NodeObject → Type 0
    IsProvidedSpec v = IsProvided v × Q v.2

    abbrev ServesSpec : Node C TlsConfig → Type 0
    ServesSpec n = Serves n × Q n.node_spec

    wrapped_Ensures :
        (o : Outcome Error (P × Bool × NodeObject))
        → Ensures IsProvidedSpec o
        → Ensures IsProvidedSpec (wrap_provider o)
    wrapped_Ensures (ok a) h = h
    wrapped_Ensures (err e) h = tt
    wrapped_Ensures panic h = tt

    provider-Ensures :
        (cfg : NodeConfig C TlsConfig) (client : Option C) (v : P × Bool × NodeObject)
        → IsConfigured cfg
        → IsProvidedSpec v
        → Ensures ServesSpec (with_provider (parts_of sys c) cfg client v)
    unfolding with_provider node_of
    provider-Ensures cfg client (p, has_np, spec) ((a, i, d, w), t) ((b, k), r) =
        Ensures-bind (λ _. Unit {0}) ServesSpec
          (sys.core_v1 client
            >> wrap_if "error creating node controller" (sys.new_node_controller spec)
            >> wrap_if "error creating pod controller" (sys.new_pod_controller p))
          (λ u. ok (node_of cfg client has_np spec)) (Ensures-trivial _)
          (λ u v. ((a, rw (i, d) refl, w, t, k, rw b refl, refl), r))

    client-Ensures :
        (cfg : NodeConfig C TlsConfig) (client : Option (Option C))
        → IsConfigured cfg
        → Ensures ServesSpec (with_client_checked (parts_of sys c) cfg client)
    unfolding with_client_checked
    client-Ensures cfg none h = tt
    client-Ensures cfg (some client) h =
        Ensures-bind IsProvidedSpec ServesSpec (wrap_provider (new_provider sys c cfg.node_spec)) _
          (wrapped_Ensures (new_provider sys c cfg.node_spec) (
            Ensures-both IsProvided (λ v. Q v.2) (new_provider sys c cfg.node_spec)
              (new_provider-Ensures cfg.node_spec) (q cfg.node_spec)))
          (λ v k. provider-Ensures cfg client v h k)

    config-Ensures :
        (cfg : NodeConfig C TlsConfig)
        → IsConfigured cfg
        → Ensures ServesSpec (with_config (parts_of sys c) cfg)
    unfolding with_config
    config-Ensures cfg h =
        Ensures-bind (λ _. Unit {0}) ServesSpec
          (wrap_if "error parsing http listen address" (sys.split_host_port cfg.http_listen_addr)) _
          (Ensures-trivial _) (λ u v. client-Ensures cfg cfg.client h)

    abbrev IsSetUp : Node C TlsConfig × List (Effect X) → Type 0
    IsSetUp (n, done) = ServesSpec n

    make_node-Ensures :
        (taint : Option Taint) (client : C) → Ensures IsSetUp (make_node sys c taint client)
    unfolding make_node new_node
    make_node-Ensures taint client =
        let opts = root_options sys c taint client (get_api_config sys.env c) in
        Ensures-bind ServesSpec IsSetUp (new_node (parts_of sys c) c.node_name opts)
          (λ n. setup_tracing sys.tracer sys.env c >>= λ done. ok (n, done))
          (Ensures-bind IsConfigured ServesSpec
            (apply_opts opts (initial_config (parts_of sys c) c.node_name)) _
            (options-Ensure taint client (initial_config (parts_of sys c) c.node_name))
            config-Ensures)
          (λ n h.
            Ensures-bind (λ _. Unit {0}) IsSetUp (setup_tracing sys.tracer sys.env c)
              (λ done. ok (n, done)) (Ensures-trivial _) (λ done u. h))

    abbrev after_guards : Outcome Error (Node C TlsConfig × List (Effect X))
    after_guards = maybe_taint sys c >>= λ taint.
        clientset_from_env sys.client_go c.kube_config_path >>= λ client.
        make_node sys c taint client

    guarded-Ensures : Ensures IsSetUp after_guards
    guarded-Ensures =
        Ensures-bind (λ _. Unit {0}) IsSetUp (maybe_taint sys c) _ (Ensures-trivial _)
          (λ taint u.
            Ensures-bind (λ _. Unit {0}) IsSetUp
              (clientset_from_env sys.client_go c.kube_config_path) _ (Ensures-trivial _)
              (λ client v. make_node-Ensures taint client))

    abbrev IsGuarded : Node C TlsConfig × List (Effect X) → Type 0
    IsGuarded (n, done) =
        (valid_operating_system c.operating_system ≡ true)
        × ((c.pod_sync_workers == pos 0) ≡ false)
        × ServesSpec n

    set_up-Ensures : Ensures IsGuarded (set_up sys c)
    unfolding set_up
    set_up-Ensures = elim (Bool-cases (valid_operating_system c.operating_system)) [
      | inr e ↦ rw e tt
      | inl e ↦ elim (Bool-cases (c.pod_sync_workers == pos 0)) [
        | inl f ↦ rw (e, f) tt
        | inr f ↦
            rw (e, f)
              (Ensures-weaken IsSetUp IsGuarded after_guards (λ (n, done) h. (e, f, h))
                guarded-Ensures)
      ]
    ]

    pub set_up-Spec :
        (n : Node C TlsConfig) (done : List (Effect X))
        → set_up sys c ≡ ok (n, done)
        → IsGuarded (n, done)
    set_up-Spec n done e = subst (Ensures IsGuarded) e set_up-Ensures

  -- When runRootCommand gets as far as a node, the operating system is a valid one and the number of
  -- workers is not 0; and the node listens on the port of the options, serves the router with their
  -- time limits, has their number of workers and their version, is not ready yet, and requires and
  -- verifies client certificates exactly when the environment names a CA.
  pub set_up-Serves :
      (n : Node C TlsConfig) (done : List (Effect X))
      → set_up sys c ≡ ok (n, done)
      → (valid_operating_system c.operating_system ≡ true)
        × ((c.pod_sync_workers == pos 0) ≡ false)
        × Serves n
  set_up-Serves n done e =
      let r =
        set_up-Spec (λ _. Unit {0})
          (λ n'.
            Ensures-weaken IsProvided (λ _. Unit {0}) (new_provider sys c n') (λ v h. tt)
              (new_provider-Ensures n'))
          n done e in
      (r.0, r.1, r.2.0)
