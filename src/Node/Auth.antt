-- ===== src/Node/Auth.antt =====
-- internal/node/nodeutil/auth.go: the check of a request before a handler is called, and what is
-- asked of the authorizer. A path is read as the list of its character codes.
pub mod Guard
pub mod Subpath
use virtual_kubelet_cmd.Base.{
  ℕ, String, Bool, true, false, not, ◌&&◌, ◌||◌, Option, none, some, List, [], ◌∷◌, ◌==◌, ◌≡◌, refl,
  length, nat_equality, string_equality, if◌then◌else◌, arith, codes, zero, suc, ap,
}
use virtual_kubelet_cmd.Errors.{Error, not_found, invalid_input, plain, external}

pub record Request : Type 0 where
  pub method : String
  pub path : String

-- What is written to the client: a text, or what `err.Error()` gives.
pub data Body : Type 0 where
  text : String → Body
  error_text : Error → Body

pub record Response : Type 0 where
  pub status : ℕ
  pub body : Body

-- user.Info: GetName and GetUID.
pub record User : Type 0 where
  pub name : String
  pub uid : String

-- authorizer.AttributesRecord
pub record Attributes : Type 0 where
  pub user : User
  pub verb : String
  pub namespace : String
  pub api_group : String
  pub api_version : String
  pub resource : String
  pub name : String
  pub resource_request : Bool
  pub path : String
  pub subresource : String

-- authorizer.Decision
pub data Decision : Type 0 where
  deny : Decision
  allow : Decision
  no_opinion : Decision

-- The interface of authn/authz: the user with `ok` and the error; the attributes; the decision with
-- the error.
pub record Auth : Type 0 where
  pub authenticate_request : Request → User × Bool × Option Error
  pub get_request_attributes : User → Request → Attributes
  pub authorize : Attributes → Decision × Option Error

abbrev pub http_error : Body → ℕ → Response
http_error m code = record { status = code; body = m }

-- The end of handleAuth, from the answer of the authorizer.
unfoldable pub authorized : Decision × Option Error → Request → (Request → Response) → Response
authorized (d, some e) r next = http_error (error_text e) 500
authorized (allow, none) r next = next r
authorized (deny, none) r next = http_error (text "Forbidden") 403
authorized (no_opinion, none) r next = http_error (text "Forbidden") 403

-- handleAuth from the answer of the authenticator.
unfoldable pub authenticated :
    Auth → User × Bool × Option Error → Request → (Request → Response) → Response
unfolding authorized
authenticated a (u, b, some e) r next = http_error (text "Unauthorized") 401
authenticated a (u, false, none) r next = http_error (text "Unauthorized") 401
authenticated a (u, true, none) r next =
    authorized (a.authorize (a.get_request_attributes u r)) r next

unfoldable pub handle_auth : Auth → Request → (Request → Response) → Response
unfolding authenticated
handle_auth a r next = authenticated a (a.authenticate_request r) r next

unfoldable pub with_auth : Auth → (Request → Response) → Request → Response
unfolding handle_auth
with_auth a h = λ r. handle_auth a r h

unfoldable pub get_api_verb : String → String
get_api_verb m =
    if m == "POST"
    then "create"
    else if m == "GET"
    then "get"
    else if m == "PUT"
    then "update"
    else if m == "PATCH"
    then "patch"
    else if m == "DELETE"
    then "delete"
    else ""

abbrev pub same_text : List ℕ → List ℕ → Bool
same_text [] [] = true
same_text [] (c ∷ cs) = false
same_text (c ∷ cs) [] = false
same_text (c ∷ cs) (d ∷ ds) = c == d && same_text cs ds

-- strings.HasPrefix(s, prefix)
abbrev pub has_prefix : List ℕ → List ℕ → Bool
has_prefix cs [] = true
has_prefix [] (d ∷ ds) = false
has_prefix (c ∷ cs) (d ∷ ds) = c == d && has_prefix cs ds

-- s[i], none for an index out of range
abbrev pub char_at : ℕ → List ℕ → Option ℕ
char_at i [] = none
char_at zero (c ∷ cs) = some c
char_at (suc i) (c ∷ cs) = char_at i cs

-- `none` is the panic of an index out of range.
unfoldable pub is_slash_at : Option ℕ → Option Bool
is_slash_at none = none
is_slash_at (some c) = some (c == b'/')

unfoldable pub is_subpath : List ℕ → List ℕ → Option Bool
unfolding is_slash_at
is_subpath subpath path =
    if same_text subpath path
    then some true
    else if has_prefix subpath path
    then is_slash_at (char_at (length path) subpath)
    else some false

-- One test of getSubresource and the name that it returns, before the tests that follow.
unfoldable pub first_of : Option Bool → String → Option String → Option String
first_of none name rest = none
first_of (some true) name rest = some name
first_of (some false) name rest = rest

unfoldable pub get_subresource : Request → Option String
unfolding is_subpath first_of
get_subresource r = first_of (is_subpath (codes r.path) (codes "/stats")) "stats" (
    first_of (is_subpath (codes r.path) (codes "/metrics")) "metrics"
      (first_of (is_subpath (codes r.path) (codes "/logs")) "log" (some "proxy")))

abbrev pub attributes_with : String → User → Request → Option String → Option Attributes
attributes_with node_name u r none = none
attributes_with node_name u r (some sub) = some (record {
  user = u;
  verb = get_api_verb r.method;
  namespace = "";
  api_group = "";
  api_version = "v1";
  resource = "nodes";
  name = node_name;
  resource_request = true;
  path = r.path;
  subresource = sub;
})

unfoldable pub get_request_attributes : String → User → Request → Option Attributes
unfolding get_subresource get_api_verb
get_request_attributes node_name u r = attributes_with node_name u r (get_subresource r)
