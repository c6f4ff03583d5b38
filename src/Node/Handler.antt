-- ===== src/Node/Handler.antt =====
-- The handler that a new node serves, whatever the options put into the configuration.
use virtual_kubelet_cmd.Base.{String, Bool, Option, none, some, List, [], ◌∷◌, ◌++◌, ◌≡◌, refl, ap}
use virtual_kubelet_cmd.Base.Outcome.{Outcome, ok, err, panic, ◌>>=◌, ◌>>◌}
use virtual_kubelet_cmd.Errors.{Error}
use virtual_kubelet_cmd.Node.Config.{Handler, NodeObject, NodeConfig, NodeOpt, apply_opts}
use virtual_kubelet_cmd.Node.Controller.{
  Parts, new_node, with_config, with_client_checked, with_provider, node_of, initial_config,
  wrap_provider, wrap_if,
}

module _ {C T : Type 0} where
  -- An option that only sets the handler, as the one of the root command and the one of setAuth do.
  abbrev pub with_handler : (Option Handler → Option Handler) → NodeOpt C T
  with_handler f cfg = ok (record cfg { handler = f cfg.handler })

  bind_assoc :
      (f g h : NodeOpt C T) (o : Outcome Error (NodeConfig C T))
      → ((c : NodeConfig C T) → h c ≡ (f c >>= g))
      → (o >>= h) ≡ ((o >>= f) >>= g)
  bind_assoc f g h (ok c) e = e c
  bind_assoc f g h (err x) e = refl
  bind_assoc f g h panic e = refl

  apply_opts-append :
      (os bs : List (NodeOpt C T)) (cfg : NodeConfig C T)
      → apply_opts (os ++ bs) cfg ≡ (apply_opts os cfg >>= apply_opts bs)
  unfolding apply_opts
  apply_opts-append [] bs cfg = refl
  apply_opts-append (a ∷ os) bs cfg =
      bind_assoc (apply_opts os) (apply_opts bs) (apply_opts (os ++ bs)) (a cfg)
        (λ c. apply_opts-append os bs c)

module _ {C T P : Type 0} (parts : Parts C T P) where
  with_provider-handler :
      (f : Option Handler → Option Handler) (cfg : NodeConfig C T) (client : Option C)
      (v : P × Bool × NodeObject)
      → with_provider parts (record cfg { handler = f cfg.handler }) client v
        ≡ with_provider parts cfg client v
  unfolding with_provider node_of
  with_provider-handler f cfg client (p, has_np, spec) = refl

  with_config-handler :
      (f : Option Handler → Option Handler) (cfg : NodeConfig C T) (c : Option (Option C))
      → with_client_checked parts (record cfg { handler = f cfg.handler }) c
        ≡ with_client_checked parts cfg c
  unfolding with_client_checked
  with_config-handler f cfg none = refl
  with_config-handler f cfg (some client) = made (wrap_provider (parts.new_provider cfg.node_spec))
    where
      made :
          (o : Outcome Error (P × Bool × NodeObject))
          → (o >>= with_provider parts (record cfg { handler = f cfg.handler }) client)
            ≡ (o >>= with_provider parts cfg client)
      made (ok v) = with_provider-handler f cfg client v
      made (err e) = refl
      made panic = refl

  -- An option that sets the handler after the others changes nothing of the outcome of NewNode, so
  -- a handler behind authentication that such an option builds is never served.
  pub new_node-with_handler :
      (name : String) (opts : List (NodeOpt C T)) (f : Option Handler → Option Handler)
      → new_node parts name (opts ++ with_handler f ∷ []) ≡ new_node parts name opts
  unfolding new_node with_config apply_opts
  new_node-with_handler name opts f =
      rw (apply_opts-append opts (with_handler f ∷ []) (initial_config parts name))
        (after (apply_opts opts (initial_config parts name)))
    where
      after :
          (o : Outcome Error (NodeConfig C T))
          → ((o >>= apply_opts (with_handler f ∷ [])) >>= with_config parts)
            ≡ (o >>= with_config parts)
      after (ok c) =
          ap
            (λ k.
              wrap_if "error parsing http listen address" (parts.split_host_port c.http_listen_addr)
              >> k)
            (with_config-handler f c c.client)
      after (err e) = refl
      after panic = refl
