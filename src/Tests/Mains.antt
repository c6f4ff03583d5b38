-- ===== src/Tests/Mains.antt =====
-- The theorems on main and on tracing, at a command line that names a node and its provider.
use virtual_kubelet_cmd.Base.{
  String, false, none, some, List, [], ◌∷◌, ◌≡◌, refl, ◌==◌, string_equality, if◌then◌else◌,
}
use virtual_kubelet_cmd.Base.Dict.{find, insert}
use virtual_kubelet_cmd.Base.Outcome.{ok}
use virtual_kubelet_cmd.Node.Controller.{Node, initial_config, node_of}
use virtual_kubelet_cmd.Node.Tls.{TlsConfig}
use virtual_kubelet_cmd.Root.Command.{System, parts_of, set_up}
use virtual_kubelet_cmd.Root.Main.{MockProvider, main_system}
use virtual_kubelet_cmd.Root.Opts.{Env, Opts}
use virtual_kubelet_cmd.Root.Tracing.{Tracer, Effect, setup_tracing}
use virtual_kubelet_cmd.Root.Tracing.Exporters.{ExporterLibrary, tracing_exporters}
use virtual_kubelet_cmd.Root.Tracing.Traced.{IsTraced, setup_tracing-IsTraced}
use virtual_kubelet_cmd.Tests.Fixtures.{value_of, env, no_opts}
use virtual_kubelet_cmd.Tests.Flags.{prepared}
use virtual_kubelet_cmd.Tests.Roots.{machine, system}

abbrev library : ExporterLibrary String
library = record { new_jaeger = λ o. ok "jaeger"; new_oc_agent = λ o. ok "ocagent" }

abbrev started : System String String String String MockProvider
started = main_system machine library system

abbrev fallback : Node String TlsConfig
fallback =
    let cfg = initial_config (parts_of started prepared) "vk" in
    node_of cfg (some "client") false cfg.node_spec

abbrev result : Node String TlsConfig × List (Effect String)
result = value_of (fallback, []) (set_up started prepared)

-- Tracing with the agent of jaeger.
abbrev traced_env : Env
traced_env = record env {
  lookup_env = λ k. if k == "JAEGER_AGENT_ENDPOINT" then some "localhost:6831" else none;
}

abbrev tracer : Tracer String
tracer = record {
  exporters = tracing_exporters traced_env library;
  to_lower = λ s. s;
  wrap = λ e m. e;
  as_invalid_input = λ e. e;
  listen = λ p. none;
}

abbrev traced_opts : Opts
traced_opts = record no_opts {
  trace_exporters = "zpages" ∷ "jaeger" ∷ [];
  trace_sample_rate = "always";
}

abbrev effects : List (Effect String)
effects = value_of [] (setup_tracing tracer traced_env traced_opts)

traces : setup_tracing tracer traced_env traced_opts ≡ ok effects
unfolding setup_tracing find insert tracing_exporters
traces = refl

setup_tracing-IsTraced_example : IsTraced tracer traced_env traced_opts effects
setup_tracing-IsTraced_example = setup_tracing-IsTraced tracer traced_env traced_opts effects traces
