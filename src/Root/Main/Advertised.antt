-- ===== src/Root/Main/Advertised.antt =====
-- What the node says of itself to the cluster.
use virtual_kubelet_cmd.Base.{
  String, Bool, Option, none, some, List, [], ◌∷◌, ◌≡◌, refl, sym, if◌then◌else◌, string_equality,
  ◌==◌, ◌<>◌, inl, inr, Bool-cases,
}
use virtual_kubelet_cmd.Base.Outcome.{Outcome, ok, ◌>>=◌, Ensures, Ensures-bind, Ensures-trivial}
use virtual_kubelet_cmd.Base.Dict.{insert, find}
use virtual_kubelet_cmd.Errors.{Error}
use virtual_kubelet_cmd.Kube.{Time}
use virtual_kubelet_cmd.Mock.Config.{
  Machine, Settings, new_mock_provider, load_config, new_mock_provider_mock_config, register_mock,
}
use virtual_kubelet_cmd.Mock.NodeStatus.{
  configure_node, capacity, with_status, node_conditions, set_label, set_labels,
}
use virtual_kubelet_cmd.Manager.{new_resource_manager}
use virtual_kubelet_cmd.Node.Client.{wrap_err, wrap_err-Ensures}
use virtual_kubelet_cmd.Node.Config.{NodeObject, NodeCondition, set_node_ready, set_ready}
use virtual_kubelet_cmd.Node.Controller.{Node}
use virtual_kubelet_cmd.Node.Tls.{TlsConfig}
use virtual_kubelet_cmd.Root.Command.{System, set_up, new_provider, init_provider, init_config}
use virtual_kubelet_cmd.Root.Command.Served.{set_up-Spec}
use virtual_kubelet_cmd.Root.Main.{MockProvider, with_mock}
use virtual_kubelet_cmd.Root.Opts.{Opts, getenv}
use virtual_kubelet_cmd.Root.Store.{InitConfig, get, new_store, register}
use virtual_kubelet_cmd.Root.Tracing.{Effect}

-- The status of the first condition of a type.
abbrev pub status_of : String → List NodeCondition → Option String
status_of type [] = none
status_of type (c ∷ cs) = if c.type == type then some c.status else status_of type cs

-- The node as the provider describes it.
abbrev pub Describes : Machine → Opts → NodeObject → Type 0
Describes m c n =
    (n.architecture ≡ "amd64")
    × (n.operating_system ≡ (if c.operating_system == "" then "linux" else c.operating_system))
    × (n.conditions ≡ node_conditions m.now)
    × (n.daemon_endpoint_port ≡ c.listen_port)

set_label-Describes :
    (m : Machine) (c : Opts) (k v : String) (n : NodeObject)
    → Describes m c n
    → Ensures (Describes m c) (set_label k v n)
set_label-Describes m c k v n h = labelled n.labels
  where
    labelled :
        (l : Option (List (String × String)))
        → Ensures (Describes m c) (set_labels k v l >>= λ m'. ok (record n { labels = some m' }))
    labelled none = tt
    labelled (some l) = h

-- The settings of a provider that the init function made.
abbrev IsMadeFor : Opts → MockProvider → Type 0
IsMadeFor c (s, p) =
    (s.operating_system ≡ c.operating_system) × (s.daemon_endpoint_port ≡ c.listen_port)

label_after :
    (m : Machine) (c : Opts) (k v : String) (o : Outcome Error NodeObject)
    → Ensures (Describes m c) o
    → Ensures (Describes m c) (o >>= set_label k v)
label_after m c k v o h =
    Ensures-bind (Describes m c) (Describes m c) o (set_label k v) h (set_label-Describes m c k v)

configure_node-Describes :
    (m : Machine) (g : String → String) (c : Opts) (s : Settings) (n : NodeObject)
    → s.operating_system ≡ c.operating_system
    → s.daemon_endpoint_port ≡ c.listen_port
    → Ensures (Describes m c) (configure_node m g s n)
unfolding configure_node with_status
configure_node-Describes m g c s n a b =
    let D = Describes m c in
    Ensures-bind (λ _. Unit {0}) D (capacity m) _ (Ensures-trivial (capacity m))
      (λ cap u.
        Ensures-bind (λ _. Unit {0}) D (capacity m) _ (Ensures-trivial (capacity m))
          (λ alloc v. label_after m c "jiriaf.site" (g "JIRIAF_SITE") _ (
            label_after m c "jiriaf.nodetype" (g "JIRIAF_NODETYPE") _ (
              label_after m c "node.kubernetes.io/exclude-from-external-load-balancers" "true" _ (
                set_label-Describes m c "alpha.service-controller.kubernetes.io/exclude-balancer"
                  "true" (with_status m.now s cap alloc n) (refl, rw a refl, refl, b))))))

init-IsMadeFor :
    (m : Machine) (c : Opts) (i : InitConfig)
    → i.operating_system ≡ c.operating_system
    → i.daemon_port ≡ c.listen_port
    → Ensures (IsMadeFor c) (new_mock_provider m i)
unfolding new_mock_provider new_mock_provider_mock_config
init-IsMadeFor m c i a b =
    Ensures-bind (λ _. Unit {0}) (IsMadeFor c) (load_config m i.config_path i.node_name) _
      (Ensures-trivial (load_config m i.config_path i.node_name)) (λ d u. (a, b))

module _ {C K CA X : Type 0} (m : Machine) (sys : System C K CA X MockProvider) (c : Opts) where
  abbrev IsDescribed : MockProvider × Bool × NodeObject → Type 0
  IsDescribed v = Describes m c v.2 × (c.provider ≡ "mock")

  init-Describes :
      (n : NodeObject) (i : InitConfig)
      → i.operating_system ≡ c.operating_system
      → i.daemon_port ≡ c.listen_port
      → Ensures IsDescribed
          (init_provider (with_mock m sys) c n i (get c.provider (with_mock m sys).store))
  unfolding with_mock init_provider get register_mock register new_store insert find
  init-Describes n i a b = elim (Bool-cases ("mock" == c.provider)) [
    | inr e ↦ rw e tt
    | inl e ↦ rw e (
        Ensures-bind (IsMadeFor c) IsDescribed _ _
          (wrap_err-Ensures (IsMadeFor c) ("error initializing provider " <> c.provider)
            (new_mock_provider m i) (init-IsMadeFor m c i a b))
          (λ p h.
            Ensures-bind (Describes m c) IsDescribed (configure_node m (getenv sys.env) p.0 n) _
              (configure_node-Describes m (getenv sys.env) c p.0 n h.0 h.1)
              (λ n' d. (d, sym ((string_equality.same_iff "mock" c.provider).0 e)))))
  ]

  new_provider-Describes :
      (n : NodeObject) → Ensures IsDescribed (new_provider (with_mock m sys) c n)
  unfolding new_provider init_config with_mock
  new_provider-Describes n =
      Ensures-bind (λ _. Unit {0}) IsDescribed
        (wrap_err "could not create resource manager" (new_resource_manager sys.listers)) _
        (Ensures-trivial
          (wrap_err "could not create resource manager" (new_resource_manager sys.listers)))
        (λ rm u. init-Describes n (init_config (with_mock m sys) c rm) refl refl)

  -- When the root command of main gets as far as a node, the provider asked for is "mock", and the
  -- node says: architecture "amd64", the operating system and the port of the options, the conditions
  -- of nodeConditions; and the ready callback turns its Ready condition to True.
  pub set_up-Describes :
      (n : Node C TlsConfig) (done : List (Effect X)) (t : Time)
      → set_up (with_mock m sys) c ≡ ok (n, done)
      → (c.provider ≡ "mock")
        × Describes m c n.node_spec
        × (status_of "Ready" (set_node_ready t n.node_spec).conditions ≡ some "True")
  unfolding set_node_ready set_ready node_conditions
  set_up-Describes n done t e =
      let r =
        (set_up-Spec (with_mock m sys) c (λ n'. Describes m c n' × (c.provider ≡ "mock"))
          new_provider-Describes n done e).2.1 in
      (r.1, r.0, rw (r.0.2) refl)
