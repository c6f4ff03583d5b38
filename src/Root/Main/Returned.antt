-- ===== src/Root/Main/Returned.antt =====
-- A run of main that returns.
use virtual_kubelet_cmd.Base.{String, List, Option, some, ◌≡◌, ◌⊎◌}
use virtual_kubelet_cmd.Base.Outcome.{ok, err}
use virtual_kubelet_cmd.Errors.{Error}
use virtual_kubelet_cmd.Mock.Config.{Machine}
use virtual_kubelet_cmd.Node.Run.{Events}
use virtual_kubelet_cmd.Root.Command.{System, RootCommand}
use virtual_kubelet_cmd.Root.Command.Ends.{HasServed}
use virtual_kubelet_cmd.Root.Main.{
  CommandLine, MockProvider, the_root, the_version, the_providers, asks_help, run_version,
  run_providers, main_system, prepare,
}
use virtual_kubelet_cmd.Root.Main.Advertised.{Describes}
use virtual_kubelet_cmd.Root.Main.Prepared.{IsPrepared}
use virtual_kubelet_cmd.Root.Opts.{Opts}
use virtual_kubelet_cmd.Root.Store.{prints}
use virtual_kubelet_cmd.Root.Tracing.Exporters.{ExporterLibrary}

module _ {C K CA X : Type 0} (m : Machine) (k : ExporterLibrary X)
    (sys : System C K CA X MockProvider) where
  -- The program has served: with options that main leaves for any command line, with the provider of
  -- the repository, and with a node that says of itself what these options say.
  abbrev pub IsServed : CommandLine → Events → Type 0
  IsServed l events =
      (c : Opts) × (l.invocation ≡ the_root)
      × IsPrepared sys.env l c
      × (c.provider ≡ "mock")
      × (served : HasServed (main_system m k sys) c events) × Describes m c (served.0).node_spec

  -- A subcommand has refused its flags, its arguments or the log level.
  abbrev pub IsRefused : CommandLine → Error → Type 0
  IsRefused l e =
      (run_version l ≡ err e) ⊎ ((args : List String) × (run_providers m l args ≡ err e))

  -- The program has printed: the help, the version, or providers.
  abbrev pub HasPrinted : CommandLine → Type 0
  HasPrinted l =
      (l.invocation ≡ asks_help)
      ⊎ (((l.invocation ≡ the_version) × (text : String) × (run_version l ≡ ok text))
          ⊎ ((args : List String) × (l.invocation ≡ the_providers args)
              × (lines : List String) × (run_providers m l args ≡ ok (prints lines))))

  -- An error that a command returned, or that kept it from running.
  abbrev pub IsReturned : CommandLine → Events → Option Error → Option Error → Error → Type 0
  IsReturned l events startup context e =
      (prepare sys.env l ≡ err e)
      ⊎ (((c : Opts) × RootCommand (main_system m k sys) c events startup context (some e))
          ⊎ IsRefused l e)
