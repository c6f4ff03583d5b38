-- ===== src/Tests/Nodes.antt =====
-- The theorems on the node and its HTTP API, at a cluster where every call succeeds.
use virtual_kubelet_cmd.Base.{
  String, string_equality, true, false, Option, none, some, [], ◌∷◌, ◌++◌, ◌≡◌, if◌then◌else◌, pos,
}
use virtual_kubelet_cmd.Base.Outcome.{ok}
use virtual_kubelet_cmd.Node.Auth.{
  Request, Response, text, User, Attributes, Auth, deny, with_auth, http_error,
}
use virtual_kubelet_cmd.Node.Auth.Guard.{with_auth_guards, admits, refusal}
use virtual_kubelet_cmd.Node.Config.{Handler, behind_auth, or_nil}
use virtual_kubelet_cmd.Node.Controller.{Parts, new_node}
use virtual_kubelet_cmd.Node.Handler.{with_handler, new_node-with_handler}

abbrev anyone : User
anyone = record { name = "anyone"; uid = "" }

abbrev attributes : User → Request → Attributes
attributes u r = record {
  user = u;
  verb = "get";
  namespace = "";
  api_group = "";
  api_version = "v1";
  resource = "nodes";
  name = "vk";
  resource_request = true;
  path = r.path;
  subresource = "proxy";
}

-- An authorizer that denies.
abbrev closed : Auth
closed = record {
  authenticate_request = λ r. (anyone, true, none);
  get_request_attributes = attributes;
  authorize = λ a. (deny, none);
}

abbrev exec : Request
exec = record { method = "POST"; path = "/exec/default/web/main" }

abbrev served : Request → Response
served r = http_error (text "served") 200

with_auth_guards_example :
    with_auth closed served exec ≡ (if admits closed exec then served exec else refusal closed exec)
with_auth_guards_example = with_auth_guards closed served exec

abbrev cluster_of : (T : Type 0) → Parts String T String
cluster_of T = record {
  num_cpu = pos 4;
  getenv = λ k. "";
  clientset_from_env = λ p. some "client";
  split_host_port = λ a. none;
  new_provider = λ spec. ok ("provider", false, spec);
  core_v1 = λ c. ok tt;
  new_node_controller = λ spec. none;
  new_pod_controller = λ p. none;
}

abbrev cluster : Parts String String String
cluster = cluster_of String

abbrev guarded : Option Handler → Option Handler
guarded h = some (behind_auth closed (or_nil h))

new_node-with_handler_example :
    new_node cluster "vk" ([] ++ with_handler guarded ∷ []) ≡ new_node cluster "vk" []
new_node-with_handler_example = new_node-with_handler cluster "vk" [] guarded
