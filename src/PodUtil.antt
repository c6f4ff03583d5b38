-- ===== src/PodUtil.antt =====
-- internal/provider/kubernetes/pod_util.go: a pod from a local file. Reading the file and decoding it
-- are parameters.
use virtual_kubelet_cmd.Base.{String, Option, none, some}
use virtual_kubelet_cmd.Base.Outcome.{Outcome, ok, err}
use virtual_kubelet_cmd.Errors.{Error, plain}
use virtual_kubelet_cmd.Kube.{Pod}

-- What the decoder gives.
pub data Object : Type 0 where
  pod_object : Pod → Object
  other_object : Object

module _ (read_file : String → Option String) (decode : String → Option Object) where
  -- The type assertion, and the fixed values behind it.
  abbrev pod_of_object : Object → Outcome Error Pod
  pod_of_object (pod_object p) = ok (record p { namespace = "default"; uid = "aa-bb" })
  pod_of_object other_object = err (plain "is a not a podSpec")

  abbrev decoded : Option Object → Outcome Error Pod
  decoded none = err (plain "could not decode yaml")
  decoded (some obj) = pod_of_object obj

  unfoldable pub pod_from_file : String → Outcome Error Pod
  pod_from_file path = elim (read_file path) [
    | none ↦ err (plain "couldn't open")
    | some pod_spec ↦ decoded (decode pod_spec)
  ]
