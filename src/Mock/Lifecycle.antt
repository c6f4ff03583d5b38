-- ===== src/Mock/Lifecycle.antt =====
-- The life of pods in internal/provider/mock/mock.go: the calls of the pod controller and the rounds
-- of statusLoop, in any order, as one run over the state of the provider.
pub mod Abstract
pub mod Polled
pub mod Specs
use virtual_kubelet_cmd.Base.{List, [], ◌∷◌}
use virtual_kubelet_cmd.Base.Outcome.{Outcome, ok, err, panic, ◌>>=◌}
use virtual_kubelet_cmd.Disk.{Disk}
use virtual_kubelet_cmd.Errors.{Error}
use virtual_kubelet_cmd.Host.{Host}
use virtual_kubelet_cmd.Kube.{Container, Pod}
use virtual_kubelet_cmd.Manager.{ResourceManager}
use virtual_kubelet_cmd.Mock.Command.Script.{Shell}
use virtual_kubelet_cmd.Mock.Kill.{Signals}
use virtual_kubelet_cmd.Mock.Provider.{Provider, create_pod, update_pod, delete_pod}
use virtual_kubelet_cmd.Mock.StatusLoop.{status_loop}

-- `List Container` is the order in which the goroutines of the containers finish.
pub data Event : Type 0 where
  creates : Host → Disk → Shell → ResourceManager → List Container → Pod → Event
  updates : Pod → Event
  deletes : Host → Disk → Signals → Pod → Event
  polls : Host → Event

-- An error goes to the caller; a panic ends the program.
abbrev pub left_by : Outcome Error (Unit {0}) × Provider → Outcome Error Provider
left_by (ok u, pr) = ok pr
left_by (err e, pr) = ok pr
left_by (panic, pr) = panic

unfoldable pub run_event : Event → Provider → Outcome Error Provider
unfolding create_pod update_pod delete_pod status_loop
run_event (creates h d sh rm order p) pr = left_by (create_pod h d sh rm order p pr)
run_event (updates p) pr = left_by (update_pod p pr)
run_event (deletes h d os p) pr = left_by (delete_pod h d os p pr)
run_event (polls h) pr = status_loop (h ∷ []) pr

unfoldable pub run_events : List Event → Provider → Outcome Error Provider
unfolding run_event
run_events [] pr = ok pr
run_events (e ∷ es) pr = run_event e pr >>= run_events es
