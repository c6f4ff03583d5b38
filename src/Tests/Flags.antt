-- ===== src/Tests/Flags.antt =====
-- The theorems on the command line, with flags for the workers, the node lease and the port's node.
use virtual_kubelet_cmd.Base.{
  true, false, none, [], ◌∷◌, pos, ◌≡◌, refl, ◌==◌, string_equality, int_equality, if◌then◌else◌,
}
use virtual_kubelet_cmd.Base.Dict.{find}
use virtual_kubelet_cmd.Base.Outcome.{ok, err}
use virtual_kubelet_cmd.Errors.{external}
use virtual_kubelet_cmd.Root.Flags.{Pflag, parse_flags, install_flags}
use virtual_kubelet_cmd.Root.Flags.ReadBack.{
  Printer, ReadsBack, print_flags, with_rest, parse_flags-print,
}
use virtual_kubelet_cmd.Root.Main.{CommandLine, the_root, prepare}
use virtual_kubelet_cmd.Root.Main.Prepared.{IsPrepared, prepare-IsPrepared}
use virtual_kubelet_cmd.Root.Opts.{Opts}
use virtual_kubelet_cmd.Tests.Fixtures.{value_of, env, no_opts}

abbrev pflag : Pflag
pflag = record {
  parse_int = λ s. if s == "4" then ok (pos 4) else err (external "int");
  parse_bool = λ s.
      if s == "true" then ok true else if s == "false" then ok false else err (external "bool");
  parse_duration = λ s. if s == "30s" then ok (pos 30000000000) else err (external "duration");
  set_slice = λ seen old s. ok (s ∷ []);
}

abbrev printer : Printer
printer = record {
  print_int = λ n. "4";
  print_bool = λ b. if b then "true" else "false";
  print_duration = λ n. "30s";
  print_slice = λ l. "jaeger";
}

abbrev wanted : Opts
wanted = record no_opts {
  pod_sync_workers = pos 4;
  disable_taint = true;
  trace_exporters = "jaeger" ∷ [];
  informer_resync_period = pos 30000000000;
  startup_timeout = pos 30000000000;
  stream_idle_timeout = pos 30000000000;
  stream_creation_timeout = pos 30000000000;
}

reads_wanted : ReadsBack pflag printer wanted no_opts
reads_wanted = record {
  workers = refl;
  no_taint = refl;
  lease = refl;
  exporters = refl;
  resync = refl;
  startup = refl;
  idle = refl;
  creation = refl;
}

parse_flags-print_example :
    parse_flags pflag [] (print_flags printer wanted) no_opts ≡ ok (with_rest wanted no_opts)
parse_flags-print_example = parse_flags-print pflag printer wanted no_opts reads_wanted

abbrev pub command_line : CommandLine
command_line = record {
  pflag = pflag;
  flags = ("nodename", "vk") ∷ ("pod-sync-workers", "4") ∷ ("provider", "mock") ∷ [];
  flag_error = none;
  invocation = the_root;
  log_level = "info";
  parse_level = λ s. none;
}

abbrev pub prepared : Opts
prepared = value_of no_opts (prepare env command_line)

pub prepares : prepare env command_line ≡ ok prepared
unfolding prepare parse_flags find install_flags
prepares = refl

prepare-IsPrepared_example : IsPrepared env command_line prepared
prepare-IsPrepared_example = prepare-IsPrepared env command_line prepared prepares
