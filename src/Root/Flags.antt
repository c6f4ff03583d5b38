-- ===== src/Root/Flags.antt =====
-- internal/commands/root/flag.go: the flags that installFlags binds to the options. Usage texts,
-- deprecations and hidden flags change no value; the klog flags are bound to no option.
pub mod Bound
pub mod ReadBack
use virtual_kubelet_cmd.Base.{
  String, Bool, Option, none, some, List, [], ◌∷◌, ℤ, ◌==◌, string_equality, ◌<>◌,
}
use virtual_kubelet_cmd.Base.Dict.{Dict, find}
use virtual_kubelet_cmd.Base.Outcome.{Outcome, ok, err, ◌>>=◌}
use virtual_kubelet_cmd.Errors.{Error, plain}
use virtual_kubelet_cmd.Root.Flag.{set_flag}
use virtual_kubelet_cmd.Root.Opts.{Opts}
use virtual_kubelet_cmd.Root.Store.{has_name}

-- What pflag makes of the text of a flag. A string slice also depends on whether the flag was set
-- before, and on its value then.
pub record Pflag : Type 0 where
  pub parse_int : String → Outcome Error ℤ
  pub parse_bool : String → Outcome Error Bool
  pub parse_duration : String → Outcome Error ℤ
  pub set_slice : Bool → List String → String → Outcome Error (List String)

-- The field that a flag is bound to, by the kind of its value.
pub data Binding : Type 0 where
  string_var : (String → Opts → Opts) → Binding
  int_var : (ℤ → Opts → Opts) → Binding
  bool_var : (Bool → Opts → Opts) → Binding
  duration_var : (ℤ → Opts → Opts) → Binding
  string_slice_var : (Opts → List String) → (List String → Opts → Opts) → Binding
  map_var :
      (Opts → Option (Dict String String)) → (Option (Dict String String) → Opts → Opts) → Binding

abbrev pub with_service_name : String → Opts → Opts
with_service_name v c = record c { trace_config = record c.trace_config { service_name = v } }

abbrev pub with_trace_tags : Option (Dict String String) → Opts → Opts
with_trace_tags v c = record c { trace_config = record c.trace_config { tags = v } }

-- installFlags
unfoldable pub install_flags : Dict String Binding
install_flags =
    ("kubeconfig", string_var (λ v c. record c { kube_config_path = v }))
    ∷ ("namespace", string_var (λ v c. record c { kube_namespace = v }))
    ∷ ("cluster-domain", string_var (λ v c. record c { kube_cluster_domain = v }))
    ∷ ("nodename", string_var (λ v c. record c { node_name = v }))
    ∷ ("os", string_var (λ v c. record c { operating_system = v }))
    ∷ ("provider", string_var (λ v c. record c { provider = v }))
    ∷ ("provider-config", string_var (λ v c. record c { provider_config_path = v }))
    ∷ ("metrics-addr", string_var (λ v c. record c { metrics_addr = v }))
    ∷ ("taint", string_var (λ v c. record c { taint_key = v }))
    ∷ ("disable-taint", bool_var (λ v c. record c { disable_taint = v }))
    ∷ ("pod-sync-workers", int_var (λ v c. record c { pod_sync_workers = v }))
    ∷ ("enable-node-lease", bool_var (λ v c. record c { enable_node_lease = v }))
    ∷ (
      "trace-exporter",
      string_slice_var (λ c. c.trace_exporters) (λ v c. record c { trace_exporters = v }),
    )
    ∷ ("trace-service-name", string_var with_service_name)
    ∷ ("trace-tag", map_var (λ c. c.trace_config.tags) with_trace_tags)
    ∷ ("trace-sample-rate", string_var (λ v c. record c { trace_sample_rate = v }))
    ∷ ("full-resync-period", duration_var (λ v c. record c { informer_resync_period = v }))
    ∷ ("startup-timeout", duration_var (λ v c. record c { startup_timeout = v }))
    ∷ ("stream-idle-timeout", duration_var (λ v c. record c { stream_idle_timeout = v }))
    ∷ ("stream-creation-timeout", duration_var (λ v c. record c { stream_creation_timeout = v }))
    ∷ []

-- One occurrence of a flag; `seen` is whether it was set before.
unfoldable pub set_binding : Pflag → Bool → Binding → String → Opts → Outcome Error Opts
unfolding set_flag
set_binding p seen (string_var set) v c = ok (set v c)
set_binding p seen (int_var set) v c = p.parse_int v >>= λ n. ok (set n c)
set_binding p seen (bool_var set) v c = p.parse_bool v >>= λ b. ok (set b c)
set_binding p seen (duration_var set) v c = p.parse_duration v >>= λ n. ok (set n c)
set_binding p seen (string_slice_var get set) v c = p.set_slice seen (get c) v >>= λ l. ok (set l c)
set_binding p seen (map_var get set) v c = set_flag v (get c) >>= λ m. ok (set m c)

abbrev pub set_found : Pflag → Bool → String → Option Binding → String → Opts → Outcome Error Opts
set_found p seen name none v c = err (plain ("unknown flag: --" <> name))
set_found p seen name (some b) v c = set_binding p seen b v c

-- The occurrences of flags on the command line, in turn; `seen` are the flags that were set before.
unfoldable pub parse_flags :
    Pflag → List String → List (String × String) → Opts → Outcome Error Opts
unfolding set_binding
parse_flags p seen [] c = ok c
parse_flags p seen ((name, v) ∷ rest) c =
    set_found p (has_name name seen) name (find name install_flags) v c
    >>= parse_flags p (name ∷ seen) rest
