-- ===== src/Root/Main.antt =====
-- main.go: the options and the provider that the root command gets. `X` is the type of trace
-- exporters; the rest of the types are those of the root command.
pub mod Advertised
pub mod Prepared
pub mod Returned
use virtual_kubelet_cmd.Base.{
  String, false, Option, none, some, List, [], ◌∷◌, Bool, ◌==◌, ℤ, pos, string_equality,
  if◌then◌else◌, join, ◌≡◌, ◌<>◌,
}
use virtual_kubelet_cmd.Base.Dict.{Dict}
use virtual_kubelet_cmd.Base.Outcome.{Outcome, ok, err, panic, ◌>>=◌, ◌>>◌}
use virtual_kubelet_cmd.Errors.{Error, wrapped}
use virtual_kubelet_cmd.Mock.Config.{Machine, Settings, InitFunc, register_mock}
use virtual_kubelet_cmd.Mock.NodeStatus.{configure_node}
use virtual_kubelet_cmd.Mock.Provider.{Provider}
use virtual_kubelet_cmd.Node.Tls.{TlsConfig}
use virtual_kubelet_cmd.Node.Controller.{Node}
use virtual_kubelet_cmd.Root.Command.{System, set_up, RootCommand}
use virtual_kubelet_cmd.Root.Flags.{Pflag, parse_flags}
use virtual_kubelet_cmd.Root.Opts.{Env, Opts, getenv, set_default_opts}
use virtual_kubelet_cmd.Root.Store.{new_store, Printed, prints, exits, providers_command}
use virtual_kubelet_cmd.Root.Tracing.{Effect}
use virtual_kubelet_cmd.Root.Tracing.Exporters.{ExporterLibrary, tracing_exporters}
use virtual_kubelet_cmd.Node.Run.{Events}

-- What the command line asks for: the root command, a subcommand, or the help of cobra.
pub data Invocation : Type 0 where
  the_root the_version asks_help : Invocation
  the_providers : List String → Invocation

-- The command line as cobra and pflag read it: the occurrences of the flags of the root command, the
-- error of the flags or of the number of arguments, and the log level; and logrus.ParseLevel.
pub record CommandLine : Type 0 where
  pub invocation : Invocation
  pub pflag : Pflag
  pub flags : List (String × String)
  pub flag_error : Option Error
  pub log_level : String
  pub parse_level : String → Option Error

-- `var opts root.Opts`
unfoldable pub zero_opts : Opts
zero_opts = record {
  kube_config_path = "";
  kube_namespace = "";
  kube_cluster_domain = "";
  listen_port = pos 0;
  node_name = "";
  operating_system = "";
  provider = "";
  provider_config_path = "";
  taint_key = "";
  taint_effect = "";
  disable_taint = false;
  metrics_addr = "";
  pod_sync_workers = pos 0;
  informer_resync_period = pos 0;
  enable_node_lease = false;
  trace_exporters = [];
  trace_sample_rate = "";
  trace_config = record { tags = none; service_name = "" };
  startup_timeout = pos 0;
  stream_idle_timeout = pos 0;
  stream_creation_timeout = pos 0;
  version = "";
}

abbrev pub fail_with : Option Error → Outcome Error (Unit {0})
fail_with none = ok tt
fail_with (some e) = err e

abbrev wrap_level : Option Error → Option Error
wrap_level none = none
wrap_level (some e) = some (wrapped "could not parse log level" e)

-- PersistentPreRunE
unfoldable pub check_log_level : CommandLine → Outcome Error (Unit {0})
check_log_level l =
    if l.log_level == "" then ok tt else fail_with (wrap_level (l.parse_level l.log_level))

abbrev pub with_version : Opts → Opts
with_version c = record c { version = join "-" ("v1.15.2" ∷ "vk" ∷ "JIRIAF" ∷ []) }

-- What cobra does before the root command runs, by the result of SetDefaultOpts: the flags are parsed
-- and the log level is read before its error is returned. No one reads the fields that it had set
-- then.
unfoldable pub pre_run : CommandLine → Outcome Error Opts → Outcome Error Opts
unfolding check_log_level parse_flags
pre_run l (ok c) = parse_flags l.pflag [] l.flags (with_version c) >>= λ o.
    fail_with l.flag_error >> (check_log_level l >> ok o)
pre_run l (err e) = parse_flags l.pflag [] l.flags (with_version zero_opts) >>= λ o.
    fail_with l.flag_error >> (check_log_level l >> err e)
pre_run l panic = panic

-- The options that reach the root command.
unfoldable pub prepare : Env → CommandLine → Outcome Error Opts
unfolding zero_opts set_default_opts pre_run
prepare env l = pre_run l (set_default_opts env zero_opts)

-- How a run of main ends: it returns, os.Exit(1) of the providers command, or log.Fatal of an error.
pub data Exit : Type 0 where
  returns exits_one : Exit
  fatal : Error → Exit

-- A store after Register, whose error is dropped.
abbrev pub or_before :
    Dict String InitFunc → Outcome Error (Dict String InitFunc) → Dict String InitFunc
or_before s (ok s') = s'
or_before s (err e) = s
or_before s panic = s

-- The version command: what it prints.
unfoldable pub version_command : String → String → String
version_command version build_time = "Version: " <> version <> ", Built: " <> build_time <> "\n"

-- What a subcommand prints, behind its flags and arguments and the check of the log level: version, or providers with its
-- arguments.
unfoldable pub run_version : CommandLine → Outcome Error String
unfolding check_log_level version_command
run_version l = fail_with l.flag_error >> check_log_level l >> ok (version_command "JIRIAF" "N/A")

unfoldable pub run_providers : Machine → CommandLine → List String → Outcome Error Printed
unfolding check_log_level providers_command new_store register_mock
run_providers m l args =
    fail_with l.flag_error
    >> check_log_level l
    >> ok (
        providers_command args
          (or_before (new_store InitFunc) (register_mock m (new_store InitFunc))))

-- The end of main, by the error of Execute; `is_canceled` is whether its cause is context.Canceled.
unfoldable pub exit_of : (Error → Bool) → Option Error → Exit
exit_of is_canceled none = returns
exit_of is_canceled (some e) = if is_canceled e then returns else fatal e

abbrev pub MockProvider : Type 0
MockProvider = Settings × Provider

module _ {C K CA X : Type 0} where
  -- The system with the store of main, and with the ConfigureNode of its provider.
  unfoldable pub with_mock : Machine → System C K CA X MockProvider → System C K CA X MockProvider
  unfolding new_store register_mock configure_node
  with_mock m sys = record sys {
    store = or_before (new_store InitFunc) (register_mock m (new_store InitFunc));
    configure_node = λ p n. configure_node m (getenv sys.env) p.0 n;
  }

  -- The exporters that the init functions have registered.
  unfoldable pub with_exporters :
      ExporterLibrary X → System C K CA X MockProvider → System C K CA X MockProvider
  unfolding tracing_exporters
  with_exporters k sys = record sys {
    tracer = record sys.tracer { exporters = tracing_exporters sys.env k };
  }

  -- The system of main.
  abbrev pub main_system :
      Machine → ExporterLibrary X → System C K CA X MockProvider → System C K CA X MockProvider
  main_system m k sys = with_mock m (with_exporters k sys)

  -- The root command of main, up to the start of the node.
  unfoldable pub set_up_main :
      Machine
      → ExporterLibrary X
      → CommandLine
      → System C K CA X MockProvider
      → Outcome Error (Node C TlsConfig × List (Effect X))
  unfolding prepare with_mock with_exporters set_up
  set_up_main m k l sys = prepare sys.env l >>= set_up (main_system m k sys)

  -- A run of main, by what the command line asks for. The root command refuses its options, or it runs
  -- with them; a subcommand prints, exits with 1 or is refused; and for help cobra prints the usage and
  -- gives no error. `context` is the error of the context once a signal has cancelled it.
  pub data Runs (m : Machine) (k : ExporterLibrary X) (l : CommandLine)
      (sys : System C K CA X MockProvider) (is_canceled : Error → Bool) (events : Events)
      (startup context : Option Error) : Exit → Type 0 where
    is_refused :
        (e : Error)
        → l.invocation ≡ the_root
        → prepare sys.env l ≡ err e
        → Runs m k l sys is_canceled events startup context (exit_of is_canceled (some e))
    has_run :
        (c : Opts) (r : Option Error)
        → l.invocation ≡ the_root
        → prepare sys.env l ≡ ok c
        → RootCommand (main_system m k sys) c events startup context r
        → Runs m k l sys is_canceled events startup context (exit_of is_canceled r)
    has_helped :
        l.invocation ≡ asks_help → Runs m k l sys is_canceled events startup context returns
    has_printed :
        (text : String)
        → l.invocation ≡ the_version
        → run_version l ≡ ok text
        → Runs m k l sys is_canceled events startup context returns
    version_refused :
        (e : Error)
        → l.invocation ≡ the_version
        → run_version l ≡ err e
        → Runs m k l sys is_canceled events startup context (exit_of is_canceled (some e))
    has_listed :
        (args lines : List String)
        → l.invocation ≡ the_providers args
        → run_providers m l args ≡ ok (prints lines)
        → Runs m k l sys is_canceled events startup context returns
    has_exited :
        (args : List String) (name : String)
        → l.invocation ≡ the_providers args
        → run_providers m l args ≡ ok (exits name)
        → Runs m k l sys is_canceled events startup context exits_one
    providers_refused :
        (e : Error) (args : List String)
        → l.invocation ≡ the_providers args
        → run_providers m l args ≡ err e
        → Runs m k l sys is_canceled events startup context (exit_of is_canceled (some e))
