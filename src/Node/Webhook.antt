-- ===== src/Node/Webhook.antt =====
-- internal/node/nodeutil/auth.go: NoAuth and WebhookAuth, which build an Auth from library parts. `C`
-- is the type of API clients, `CA` that of providers of CA certificates. Times are nanoseconds. The
-- spans of tracing that authWrapper adds are left out here.
use virtual_kubelet_cmd.Base.{
  String, false, true, Bool, Option, none, some, List, [], ◌∷◌, ℤ, pos, ◌≡◌, refl,
}
use virtual_kubelet_cmd.Base.Outcome.{Outcome, ok, panic, ◌>>=◌}
use virtual_kubelet_cmd.Errors.{Error}
use virtual_kubelet_cmd.Node.Auth.{
  Request, Response, User, Attributes, Decision, allow, Auth, get_request_attributes, with_auth,
  handle_auth, authenticated, authorized,
}

abbrev pub Authenticator : Type 0
Authenticator = Request → User × Bool × Option Error

abbrev pub Authorizer : Type 0
Authorizer = Attributes → Decision × Option Error

-- WebhookAuthConfig: DelegatingAuthenticatorConfig and DelegatingAuthorizerConfig, without the backoff.
pub record WebhookAuthConfig (C CA : Type 0) : Type 0 where
  pub cache_ttl : ℤ
  pub client_ca : Option CA
  pub token_access_review_client : Option C
  pub allow_cache_ttl : ℤ
  pub deny_cache_ttl : ℤ
  pub subject_access_review_client : Option C

-- The library: the two parts of NoAuth, New of the two configurations, and a method of the client,
-- which may be a nil pointer.
pub record AuthParts (C CA : Type 0) : Type 0 where
  pub anonymous : Authenticator
  pub always_allow : Authorizer
  pub new_authenticator : WebhookAuthConfig C CA → Outcome Error Authenticator
  pub new_authorizer : WebhookAuthConfig C CA → Outcome Error Authorizer
  pub client_method : Option C → Outcome Error C

abbrev no_attributes : Attributes
no_attributes = record {
  user = record { name = ""; uid = "" };
  verb = "";
  namespace = "";
  api_group = "";
  api_version = "";
  resource = "";
  name = "";
  resource_request = false;
  path = "";
  subresource = "";
}

-- NodeRequestAttr: its attributes are always found, so the default never arises.
abbrev pub attributes_or : Option Attributes → Attributes
attributes_or none = no_attributes
attributes_or (some a) = a

unfoldable pub node_request_attr : String → User → Request → Attributes
unfolding get_request_attributes
node_request_attr node_name u r = attributes_or (get_request_attributes node_name u r)

named_user :
    (a : Auth) (v : User × Bool × Option Error) (r : Request) (h : Request → Response)
    → v.1 ≡ true
    → v.2 ≡ none
    → a.authorize (a.get_request_attributes v.0 r) ≡ (allow, none)
    → authenticated a v r h ≡ h r
unfolding authenticated authorized
named_user a (u, true, none) r h b e d = rw d refl
named_user a (u, true, some x) r h b e d = cc
named_user a (u, false, x) r h b e d = cc

module _ {C CA : Type 0} where
  -- NoAuth
  unfoldable pub no_auth : AuthParts C CA → Auth
  unfolding node_request_attr
  no_auth k = record {
    authenticate_request = k.anonymous;
    get_request_attributes = node_request_attr "";
    authorize = k.always_allow;
  }

abbrev pub WebhookAuthOption : Type 0 → Type 0 → Type 0
WebhookAuthOption C CA = WebhookAuthConfig C CA → Outcome Error (WebhookAuthConfig C CA)

module _ {C CA : Type 0} where
  unfoldable pub apply_webhook_opts :
      List (WebhookAuthOption C CA)
      → WebhookAuthConfig C CA
      → Outcome Error (WebhookAuthConfig C CA)
  apply_webhook_opts [] cfg = ok cfg
  apply_webhook_opts (o ∷ os) cfg = o cfg >>= apply_webhook_opts os

  -- A method call on the interface value of the client.
  abbrev pub call_client : AuthParts C CA → Option (Option C) → Outcome Error C
  call_client k none = panic
  call_client k (some c) = k.client_method c

  abbrev pub default_webhook_config : WebhookAuthConfig C CA
  default_webhook_config = record {
    cache_ttl = pos 120000000000;
    client_ca = none;
    token_access_review_client = none;
    allow_cache_ttl = pos 300000000000;
    deny_cache_ttl = pos 30000000000;
    subject_access_review_client = none;
  }

  -- WebhookAuth
  unfoldable pub webhook_auth :
      AuthParts C CA
      → Option (Option C)
      → String
      → List (WebhookAuthOption C CA)
      → Outcome Error Auth
  unfolding apply_webhook_opts node_request_attr
  webhook_auth k client node_name opts = apply_webhook_opts opts default_webhook_config >>= λ cfg.
      call_client k client >>= λ token. call_client k client >>= λ subject.
      let cfg' : WebhookAuthConfig C CA = record cfg {
        token_access_review_client = some token;
        subject_access_review_client = some subject;
      } in
      k.new_authenticator cfg' >>= λ authn. k.new_authorizer cfg' >>= λ authz. ok (record {
        authenticate_request = authn;
        get_request_attributes = node_request_attr node_name;
        authorize = authz;
      })

  -- What the parts of NoAuth promise: a user is always named, and everything is allowed.
  abbrev pub IsOpen : AuthParts C CA → Type 0
  IsOpen k =
      ((r : Request) → ((k.anonymous r).1 ≡ true) × ((k.anonymous r).2 ≡ none))
      × ((a : Attributes) → k.always_allow a ≡ (allow, none))

  -- A handler behind NoAuth answers every request itself, when the anonymous authenticator always
  -- names a user and the authorizer always allows, both without an error.
  pub with_auth-no_auth :
      (k : AuthParts C CA) (h : Request → Response) (r : Request)
      → IsOpen k
      → with_auth (no_auth k) h r ≡ h r
  unfolding with_auth handle_auth no_auth
  with_auth-no_auth k h r (named, allowed) =
      named_user (no_auth k) (k.anonymous r) r h (named r).0 (named r).1
        (allowed (node_request_attr "" (k.anonymous r).0 r))
