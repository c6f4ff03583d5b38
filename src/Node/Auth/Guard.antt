-- ===== src/Node/Auth/Guard.antt =====
-- Which requests reach the handler behind handleAuth.
use virtual_kubelet_cmd.Base.{
  Bool, true, false, Option, none, some, ◌≡◌, refl, nat_equality, ◌&&◌, if◌then◌else◌,
}
use virtual_kubelet_cmd.Errors.{Error}
use virtual_kubelet_cmd.Node.Auth.{
  Request, Response, User, Auth, Decision, deny, allow, no_opinion, authorized, authenticated,
  handle_auth, with_auth, http_error, error_text, text,
}

abbrev pub is_allowed : Decision × Option Error → Bool
is_allowed (allow, none) = true
is_allowed (allow, some e) = false
is_allowed (deny, e) = false
is_allowed (no_opinion, e) = false

abbrev pub is_authentic : User × Bool × Option Error → Bool
is_authentic (u, true, none) = true
is_authentic (u, false, none) = false
is_authentic (u, b, some e) = false

-- What the authorizer says of the request of the user that the authenticator names.
abbrev pub decision_of : Auth → Request → Decision × Option Error
decision_of a r = a.authorize (a.get_request_attributes (a.authenticate_request r).0 r)

-- The authenticator knows the user and the authorizer allows the request, both without an error.
abbrev pub admits : Auth → Request → Bool
admits a r = is_authentic (a.authenticate_request r) && is_allowed (decision_of a r)

-- The answer to a request that is not admitted: 401 before 500 before 403.
abbrev pub refusal_by : Option Error → Response
refusal_by none = http_error (text "Forbidden") 403
refusal_by (some e) = http_error (error_text e) 500

abbrev pub refusal : Auth → Request → Response
refusal a r =
    if is_authentic (a.authenticate_request r)
    then refusal_by (decision_of a r).1
    else http_error (text "Unauthorized") 401

authorized_lem :
    (v : Decision × Option Error) (r : Request) (next : Request → Response)
    → authorized v r next ≡ (if is_allowed v then next r else refusal_by v.1)
unfolding authorized
authorized_lem (allow, none) r next = refl
authorized_lem (allow, some e) r next = refl
authorized_lem (deny, none) r next = refl
authorized_lem (deny, some e) r next = refl
authorized_lem (no_opinion, none) r next = refl
authorized_lem (no_opinion, some e) r next = refl

authenticated_lem :
    (a : Auth) (v : User × Bool × Option Error) (r : Request) (next : Request → Response)
    → authenticated a v r next ≡ (
        if is_authentic v && is_allowed (a.authorize (a.get_request_attributes v.0 r))
        then next r
        else if is_authentic v
        then refusal_by (a.authorize (a.get_request_attributes v.0 r)).1
        else http_error (text "Unauthorized") 401)
unfolding authenticated
authenticated_lem a (u, true, none) r next =
    authorized_lem (a.authorize (a.get_request_attributes u r)) r next
authenticated_lem a (u, false, none) r next = refl
authenticated_lem a (u, true, some e) r next = refl
authenticated_lem a (u, false, some e) r next = refl

-- A handler that is wrapped with an Auth answers a request itself exactly when the authenticator
-- names a user without an error and the authorizer allows the request without an error; any other
-- request is answered without the handler, by 401, 500 or 403.
pub with_auth_guards :
    (a : Auth) (h : Request → Response) (r : Request)
    → with_auth a h r ≡ (if admits a r then h r else refusal a r)
unfolding with_auth handle_auth
with_auth_guards a h r = authenticated_lem a (a.authenticate_request r) r h
