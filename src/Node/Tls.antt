-- ===== src/Node/Tls.antt =====
-- internal/node/nodeutil/tls.go: the TLS configuration and its options. The option functions change
-- the configuration in place, and it reaches the node only after all of them succeed.
use virtual_kubelet_cmd.Base.{
  String, Bool, true, Option, none, some, List, [], ◌∷◌, ◌++◌, ◌==◌, string_equality, if◌then◌else◌,
}
use virtual_kubelet_cmd.Base.Outcome.{Outcome, ok, err, panic, ◌>>=◌}
use virtual_kubelet_cmd.Errors.{Error, plain, wrapped}
use virtual_kubelet_cmd.Node.Config.{NodeOpt}

-- tls.ClientAuthType
pub data ClientAuth : Type 0 where
  request_client_cert : ClientAuth
  require_and_verify_client_cert : ClientAuth

-- The certificates and the PEM texts are named by texts; a pool is the PEM texts put into it.
pub record TlsConfig : Type 0 where
  pub min_version : String
  pub prefer_server_cipher_suites : Bool
  pub cipher_suites : List String
  pub client_auth : ClientAuth
  pub certificates : List String
  pub client_cas : Option (List String)

abbrev pub TlsOpt : Type 0
TlsOpt = TlsConfig → Outcome Error TlsConfig

-- What the options call: os.ReadFile, tls.LoadX509KeyPair, and whether AppendCertsFromPEM finds a
-- certificate.
pub record Certs : Type 0 where
  pub read_file : String → Outcome Error String
  pub load_key_pair : String → String → Outcome Error String
  pub has_certs : String → Bool

unfoldable pub default_server_ciphers : List String
default_server_ciphers =
    "TLS_ECDHE_ECDSA_WITH_AES_256_CBC_SHA" ∷ "TLS_ECDHE_ECDSA_WITH_AES_128_CBC_SHA"
    ∷ "TLS_ECDHE_RSA_WITH_AES_256_CBC_SHA" ∷ "TLS_ECDHE_RSA_WITH_AES_128_CBC_SHA"
    ∷ "TLS_ECDHE_ECDSA_WITH_AES_256_GCM_SHA384" ∷ "TLS_ECDHE_RSA_WITH_AES_256_GCM_SHA384"
    ∷ "TLS_ECDHE_ECDSA_WITH_AES_128_GCM_SHA256" ∷ "TLS_ECDHE_RSA_WITH_AES_128_GCM_SHA256" ∷ []

abbrev pub pool_of : Option (List String) → List String
pool_of none = []
pool_of (some p) = p

-- WithCACert
unfoldable pub with_ca_cert : Certs → String → TlsOpt
with_ca_cert k pem cfg =
    if k.has_certs pem
    then ok (record cfg { client_cas = some (pool_of cfg.client_cas ++ pem ∷ []) })
    else err (plain "could not parse ca cert pem")

-- WithCAFromPath, from what reading the file gave.
unfoldable pub with_ca_read : Certs → Outcome Error String → TlsOpt
unfolding with_ca_cert
with_ca_read k (ok pem) cfg =
    with_ca_cert k pem (record cfg { client_auth = require_and_verify_client_cert })
with_ca_read k (err e) cfg = err (wrapped "error reading ca cert pem" e)
with_ca_read k panic cfg = panic

unfoldable pub with_ca_from_path : Certs → String → TlsOpt
unfolding with_ca_read
with_ca_from_path k p cfg = with_ca_read k (k.read_file p) cfg

-- WithKeyPairFromPath
unfoldable pub with_key_pair_from_path : Certs → String → String → TlsOpt
with_key_pair_from_path k cert key cfg =
    k.load_key_pair cert key >>= λ c. ok (record cfg { certificates = cfg.certificates ++ c ∷ [] })

unfoldable pub base_tls_config : TlsConfig
unfolding default_server_ciphers
base_tls_config = record {
  min_version = "1.2";
  prefer_server_cipher_suites = true;
  cipher_suites = default_server_ciphers;
  client_auth = request_client_cert;
  certificates = [];
  client_cas = none;
}

unfoldable pub apply_tls_opts : List TlsOpt → TlsOpt
apply_tls_opts [] cfg = ok cfg
apply_tls_opts (o ∷ os) cfg = o cfg >>= apply_tls_opts os

-- WithTLSConfig
unfoldable pub with_tls_config : List TlsOpt → {C : Type 0} → NodeOpt C TlsConfig
unfolding apply_tls_opts base_tls_config
with_tls_config opts cfg =
    apply_tls_opts opts base_tls_config >>= λ t. ok (record cfg { tls_config = some t })

-- maybeCA of internal/commands/root/root.go: no option for no path.
unfoldable pub maybe_ca : Certs → String → TlsOpt
unfolding with_ca_from_path
maybe_ca k p cfg = if p == "" then ok cfg else with_ca_from_path k p cfg
