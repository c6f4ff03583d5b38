-- ===== src/Root/Flags/ReadBack.antt =====
-- Options written as a command line, and read back.
use virtual_kubelet_cmd.Base.{String, Bool, false, List, [], ◌∷◌, ℤ, ◌≡◌, refl, string_equality}
use virtual_kubelet_cmd.Base.Dict.{find}
use virtual_kubelet_cmd.Base.Outcome.{ok}
use virtual_kubelet_cmd.Root.Flags.{Pflag, install_flags, set_binding, parse_flags}
use virtual_kubelet_cmd.Root.Opts.{Opts}

-- Texts for the values of flags.
pub record Printer : Type 0 where
  pub print_int : ℤ → String
  pub print_bool : Bool → String
  pub print_duration : ℤ → String
  pub print_slice : List String → String

-- pflag reads the texts of these options back; a first string slice replaces the one before.
pub record ReadsBack (p : Pflag) (w : Printer) (c old : Opts) : Type 0 where
  pub workers : p.parse_int (w.print_int c.pod_sync_workers) ≡ ok c.pod_sync_workers
  pub no_taint : p.parse_bool (w.print_bool c.disable_taint) ≡ ok c.disable_taint
  pub lease : p.parse_bool (w.print_bool c.enable_node_lease) ≡ ok c.enable_node_lease
  pub exporters :
      p.set_slice false old.trace_exporters (w.print_slice c.trace_exporters) ≡ ok c.trace_exporters
  pub resync :
      p.parse_duration (w.print_duration c.informer_resync_period) ≡ ok c.informer_resync_period
  pub startup : p.parse_duration (w.print_duration c.startup_timeout) ≡ ok c.startup_timeout
  pub idle : p.parse_duration (w.print_duration c.stream_idle_timeout) ≡ ok c.stream_idle_timeout
  pub creation :
      p.parse_duration (w.print_duration c.stream_creation_timeout) ≡ ok c.stream_creation_timeout

-- Every flag but the trace tags, with the value of its field.
abbrev pub print_flags : Printer → Opts → List (String × String)
print_flags w c =
    ("kubeconfig", c.kube_config_path)
    ∷ ("namespace", c.kube_namespace)
    ∷ ("cluster-domain", c.kube_cluster_domain)
    ∷ ("nodename", c.node_name)
    ∷ ("os", c.operating_system)
    ∷ ("provider", c.provider)
    ∷ ("provider-config", c.provider_config_path)
    ∷ ("metrics-addr", c.metrics_addr)
    ∷ ("taint", c.taint_key)
    ∷ ("disable-taint", w.print_bool c.disable_taint)
    ∷ ("pod-sync-workers", w.print_int c.pod_sync_workers)
    ∷ ("enable-node-lease", w.print_bool c.enable_node_lease)
    ∷ ("trace-exporter", w.print_slice c.trace_exporters)
    ∷ ("trace-service-name", c.trace_config.service_name)
    ∷ ("trace-sample-rate", c.trace_sample_rate)
    ∷ ("full-resync-period", w.print_duration c.informer_resync_period)
    ∷ ("startup-timeout", w.print_duration c.startup_timeout)
    ∷ ("stream-idle-timeout", w.print_duration c.stream_idle_timeout)
    ∷ ("stream-creation-timeout", w.print_duration c.stream_creation_timeout)
    ∷ []

-- Options with the fields that no flag of these is bound to.
abbrev pub with_rest : Opts → Opts → Opts
with_rest c old = record c {
  listen_port = old.listen_port;
  taint_effect = old.taint_effect;
  version = old.version;
  trace_config = record c.trace_config { tags = old.trace_config.tags };
}

-- A command line with every flag but the trace tags, each with the text of a field of some options,
-- leaves these options whatever was set before: only the port, the effect of the taint, the version
-- and the trace tags stay. pflag is taken to read the texts of the numbers, truth values, durations
-- and string slices of these options back.
pub parse_flags-print :
    (p : Pflag) (w : Printer) (c old : Opts)
    → ReadsBack p w c old
    → parse_flags p [] (print_flags w c) old ≡ ok (with_rest c old)
unfolding parse_flags find install_flags set_binding
parse_flags-print p w c old r =
    rw (r.workers, r.no_taint, r.lease, r.exporters, r.resync, r.startup, r.idle, r.creation) refl
