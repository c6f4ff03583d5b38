-- ===== src/Root/Command/Ends.antt =====
-- The results of runRootCommand.
use virtual_kubelet_cmd.Base.{Option, none, List, ◌≡◌}
use virtual_kubelet_cmd.Base.Outcome.{ok}
use virtual_kubelet_cmd.Errors.{Error}
use virtual_kubelet_cmd.Node.Controller.{Node}
use virtual_kubelet_cmd.Node.Ready.{HasStarted, WaitReady-none}
use virtual_kubelet_cmd.Node.Run.{Events, run, WaitReady}
use virtual_kubelet_cmd.Node.Tls.{TlsConfig}
use virtual_kubelet_cmd.Root.Command.{
  System, set_up, RootCommand, fails, is_not_ready, is_cancelled, has_ended,
}
use virtual_kubelet_cmd.Root.Command.Served.{set_up-Serves, Serves}
use virtual_kubelet_cmd.Root.Opts.{Opts}
use virtual_kubelet_cmd.Root.Tracing.{Effect}

module _ {C K CA X P : Type 0} (sys : System C K CA X P) (c : Opts) where
  -- A node that the options have set up, and that has come up.
  abbrev pub HasServed : Events → Type 0
  HasServed events =
      (n : Node C TlsConfig) × (done : List (Effect X)) × (set_up sys c ≡ ok (n, done))
      × Serves sys c n
      × HasStarted events n

  came_up :
      (events : Events) (startup : Option Error) (n : Node C TlsConfig) (done : List (Effect X))
      → set_up sys c ≡ ok (n, done)
      → WaitReady (run events n).1 startup none
      → HasServed events
  came_up events startup n done e w =
      let s = (set_up-Serves sys c n done e).2 in
      (n, done, e, s, WaitReady-none events n startup s.6 w)

  -- When runRootCommand can return no error, it has set up a node that serves as the options say,
  -- the listener of this node was started without an error, both of its controllers were ready, and
  -- the ready callback gave no error.
  pub RootCommand-none :
      (events : Events) (startup context : Option Error) (r : Option Error)
      → RootCommand sys c events startup context r
      → r ≡ none
      → HasServed events
  RootCommand-none events startup context r (fails e f) h = cc
  RootCommand-none events startup context r (is_not_ready n done e f w) h = cc
  RootCommand-none events startup context r (is_cancelled n done e f w k) h =
      came_up events startup n done f w
  RootCommand-none events startup context r (has_ended n done f w d) h =
      came_up events startup n done f w
