-- ===== src/Node/Instrument.antt =====
-- internal/node/nodeutil/auth.go: InstrumentAuth and the spans that authWrapper starts.
use virtual_kubelet_cmd.Base.{String, Bool, Option, List, [], ◌∷◌, ◌≡◌, refl}
use virtual_kubelet_cmd.Errors.{Error}
use virtual_kubelet_cmd.Node.Auth.{Request, User, Attributes, Decision, Auth}

-- A value of the interface Auth: an authWrapper around one, or another type.
pub data AuthValue : Type 0 where
  auth_wrapper : AuthValue → AuthValue
  other_auth : Auth → AuthValue

-- InstrumentAuth
unfoldable pub instrument_auth : AuthValue → AuthValue
instrument_auth (auth_wrapper a) = auth_wrapper a
instrument_auth (other_auth a) = auth_wrapper (other_auth a)

-- A call starts a span in each wrapper; the spans that it starts, and its result.
abbrev with_span : {A : Type 0} → String → List String × A → List String × A
with_span name (spans, a) = (name ∷ spans, a)

unfoldable pub authenticate_request :
    AuthValue → Request → List String × (User × Bool × Option Error)
authenticate_request (auth_wrapper a) r = with_span "AuthenticateRequest" (authenticate_request a r)
authenticate_request (other_auth a) r = ([], a.authenticate_request r)

unfoldable pub authorize : AuthValue → Attributes → List String × (Decision × Option Error)
authorize (auth_wrapper a) x = with_span "Authorize" (authorize a x)
authorize (other_auth a) x = ([], a.authorize x)

-- However often an Auth is instrumented, each of its calls starts one span, and gives what the Auth
-- gives.
instrument_auth-once :
    (a : Auth) (r : Request) (x : Attributes)
    → (authenticate_request (instrument_auth (instrument_auth (other_auth a))) r
        ≡ ("AuthenticateRequest" ∷ [], a.authenticate_request r))
      × (authorize (instrument_auth (instrument_auth (other_auth a))) x
          ≡ ("Authorize" ∷ [], a.authorize x))
unfolding instrument_auth authenticate_request authorize
instrument_auth-once a r x = (refl, refl)
