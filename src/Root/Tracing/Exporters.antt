-- ===== src/Root/Tracing/Exporters.antt =====
-- internal/commands/root/tracing_register.go, tracing_register_jaeger.go and
-- tracing_register_ocagent.go: the exporters that a trace can be sent to.
use virtual_kubelet_cmd.Base.{
  String, Bool, List, [], ◌∷◌, ◌++◌, ◌==◌, ◌||◌, ◌&&◌, map, string_equality, if◌then◌else◌,
}
use virtual_kubelet_cmd.Base.Dict.{Dict, insert}
use virtual_kubelet_cmd.Base.Outcome.{Outcome, ok, err, ◌>>=◌}
use virtual_kubelet_cmd.Errors.{Error, plain, invalid_input}
use virtual_kubelet_cmd.Root.Opts.{Env, TracingExporterOptions, getenv}
use virtual_kubelet_cmd.Root.Tracing.{tags_of}

-- jaeger.Options, with its process
pub record JaegerOptions : Type 0 where
  pub collector_endpoint : String
  pub agent_endpoint : String
  pub username : String
  pub password : String
  pub service_name : String
  pub tags : List (String × String)

-- ocagent.ExporterOption
pub data AgentOption : Type 0 where
  with_service_name : String → AgentOption
  with_address : String → AgentOption
  with_insecure : AgentOption

-- NewExporter of jaeger and of ocagent. `X` is the type of exporters.
pub record ExporterLibrary (X : Type 0) : Type 0 where
  pub new_jaeger : JaegerOptions → Outcome Error X
  pub new_oc_agent : List AgentOption → Outcome Error X

-- The cases of the switch over OCAGENT_INSECURE: secure, insecure, and none of both.
abbrev pub is_off : String → Bool
is_off s = s == "0" || s == "no" || s == "n" || s == "off" || s == ""

abbrev pub is_on : String → Bool
is_on s = s == "1" || s == "yes" || s == "y" || s == "on"

abbrev pub ExporterInitFunc : Type 0 → Type 0
ExporterInitFunc X = TracingExporterOptions → Outcome Error X

abbrev pub jaeger_options : Env → TracingExporterOptions → JaegerOptions
jaeger_options e o = record {
  collector_endpoint = getenv e "JAEGER_COLLECTOR_ENDPOINT";
  agent_endpoint = getenv e "JAEGER_AGENT_ENDPOINT";
  username = getenv e "JAEGER_USER";
  password = getenv e "JAEGER_PASSWORD";
  service_name = o.service_name;
  tags = [];
}

-- The options of the agent behind the endpoint.
abbrev pub insecure_or : String → List AgentOption → Outcome Error (List AgentOption)
insecure_or s opts =
    if is_off s
    then ok opts
    else if is_on s
    then ok (opts ++ with_insecure ∷ [])
    else err (invalid_input "invalid value for OCAGENT_INSECURE")

module _ {X : Type 0} where
  -- RegisterTracingExporter
  unfoldable pub register_tracing_exporter :
      String
      → ExporterInitFunc X
      → Dict String (ExporterInitFunc X)
      → Dict String (ExporterInitFunc X)
  register_tracing_exporter name f exporters = insert name f exporters

  abbrev pub name_of : String × ExporterInitFunc X → String
  name_of (name, f) = name

  -- AvailableTraceExporters
  unfoldable pub available_trace_exporters : Dict String (ExporterInitFunc X) → List String
  available_trace_exporters exporters = map name_of exporters

  -- NewJaegerExporter
  unfoldable pub new_jaeger_exporter : Env → ExporterLibrary X → ExporterInitFunc X
  new_jaeger_exporter e k o =
      let opts = jaeger_options e o in
      if opts.collector_endpoint == "" && opts.agent_endpoint == ""
      then err (plain "must specify either JAEGER_COLLECTOR_ENDPOINT or JAEGER_AGENT_ENDPOINT")
      else k.new_jaeger (record opts { tags = opts.tags ++ tags_of o.tags })

  -- NewOCAgentExporter
  unfoldable pub new_oc_agent_exporter : Env → ExporterLibrary X → ExporterInitFunc X
  new_oc_agent_exporter e k o =
      let endpoint = getenv e "OCAGENT_ENDPOINT" in
      if endpoint == ""
      then err (invalid_input "must set endpoint address in OCAGENT_ENDPOINT")
      else insecure_or (getenv e "OCAGENT_INSECURE")
          (with_service_name o.service_name ∷ with_address endpoint ∷ [])
        >>= k.new_oc_agent

  -- What the init functions of the two files register.
  unfoldable pub tracing_exporters : Env → ExporterLibrary X → Dict String (ExporterInitFunc X)
  unfolding register_tracing_exporter new_jaeger_exporter new_oc_agent_exporter
  tracing_exporters e k =
      register_tracing_exporter "ocagent" (new_oc_agent_exporter e k)
        (register_tracing_exporter "jaeger" (new_jaeger_exporter e k) [])
