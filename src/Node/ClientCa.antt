-- ===== src/Node/ClientCa.antt =====
-- What the TLS options of the root command make of a CA path.
use virtual_kubelet_cmd.Base.{
  String, Bool, false, not, Option, some, List, [], ◌∷◌, ◌++◌, ◌≡◌, refl, subst, if◌then◌else◌,
  length, is_some, ◌==◌, string_equality, Bool-cases, inl, inr,
}
use virtual_kubelet_cmd.Base.Outcome.{Outcome, ok, err, panic, ◌>>=◌}
use virtual_kubelet_cmd.Errors.{Error}
use virtual_kubelet_cmd.Node.Config.{NodeConfig}
use virtual_kubelet_cmd.Node.Tls.{
  TlsConfig, TlsOpt, Certs, request_client_cert, require_and_verify_client_cert, with_ca_cert,
  with_ca_read, with_ca_from_path, with_key_pair_from_path, apply_tls_opts, with_tls_config,
  maybe_ca, base_tls_config,
}

-- The options of runRootCommand.
abbrev pub root_tls_opts : Certs → String → String → String → List TlsOpt
root_tls_opts k cert key ca = with_key_pair_from_path k cert key ∷ maybe_ca k ca ∷ []

abbrev pub Verifies : Bool → Option TlsConfig → Type 0
Verifies no_ca o =
    (t : TlsConfig) × (o ≡ some t)
    × (t.client_auth ≡ (if no_ca then request_client_cert else require_and_verify_client_cert))
    × (is_some t.client_cas ≡ not no_ca)
    × (length t.certificates ≡ 1)

module _ {C : Type 0} where
  -- A predicate of the configuration that a call gives, if it gives one.
  abbrev Gives : Bool → Outcome Error (NodeConfig C TlsConfig) → Type 0
  Gives no_ca (ok c) = Verifies no_ca c.tls_config
  Gives no_ca (err e) = Unit
  Gives no_ca panic = Unit

  module _ (k : Certs) (cfg : NodeConfig C TlsConfig) where
    abbrev stored : TlsConfig → Outcome Error (NodeConfig C TlsConfig)
    stored t = ok (record cfg { tls_config = some t })

    ca_read-Gives :
        (c : String) (o : Outcome Error String)
        → Gives false (
            (with_ca_read k o (record base_tls_config { certificates = c ∷ [] })
              >>= apply_tls_opts [])
            >>= stored)
    unfolding with_ca_read with_ca_cert apply_tls_opts base_tls_config
    ca_read-Gives c (ok pem) = elim (Bool-cases (k.has_certs pem)) [
      | inl h ↦ rw h (_, refl, refl, refl, refl)
      | inr h ↦ rw h tt
    ]
    ca_read-Gives c (err x) = tt
    ca_read-Gives c panic = tt

    key_pair-Gives :
        (ca : String) (o : Outcome Error String)
        → Gives (ca == "") (
            ((o >>= λ c. ok (record base_tls_config { certificates = [] ++ c ∷ [] }))
              >>= apply_tls_opts (maybe_ca k ca ∷ []))
            >>= stored)
    unfolding maybe_ca with_ca_from_path apply_tls_opts base_tls_config
    key_pair-Gives ca (ok c) = elim (Bool-cases (ca == "")) [
      | inl h ↦ rw h (_, refl, refl, refl, refl)
      | inr h ↦ rw h (ca_read-Gives c (k.read_file ca))
    ]
    key_pair-Gives ca (err x) = tt
    key_pair-Gives ca panic = tt

    root_opts-Gives :
        (cert key ca : String)
        → Gives (ca == "") (with_tls_config (root_tls_opts k cert key ca) cfg)
    unfolding with_tls_config apply_tls_opts with_key_pair_from_path base_tls_config
    root_opts-Gives cert key ca = key_pair-Gives ca (k.load_key_pair cert key)

    -- When the TLS options of the root command succeed, the configuration holds one certificate,
    -- and it requires and verifies client certificates, with a CA pool, exactly when the CA path is
    -- not empty.
    pub root_tls_opts-Verifies :
        (cert key ca : String) (cfg' : NodeConfig C TlsConfig)
        → with_tls_config (root_tls_opts k cert key ca) cfg ≡ ok cfg'
        → Verifies (ca == "") cfg'.tls_config
    root_tls_opts-Verifies cert key ca cfg' e =
        subst (Gives (ca == "")) e (root_opts-Gives cert key ca)
