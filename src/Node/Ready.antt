-- ===== src/Node/Ready.antt =====
-- What WaitReady and Err tell of a run of the node.
use virtual_kubelet_cmd.Base.{true, false, Option, none, some, ◌≡◌, refl}
use virtual_kubelet_cmd.Errors.{Error}
use virtual_kubelet_cmd.Node.Controller.{Node}
use virtual_kubelet_cmd.Node.Run.{
  Start, context_done, is_ready, has_ended, Events, run_http, ready_cb, serve, await_node,
  await_pods, after_listen, run, node_err, WaitReady, ready_closed,
}

module _ {C T : Type 0} where
  -- After Run, the done channel is closed and Err gives the error that Run returned.
  pub run-node_err :
      (e : Events) (n : Node C T) → ((run e n).1.done ≡ true) × (node_err (run e n).1 ≡ (run e n).0)
  unfolding node_err run
  run-node_err e n = (refl, refl)

  -- The channel stays open unless every stage of the start succeeds.
  abbrev pub HasStarted : Events → Node C T → Type 0
  HasStarted e n =
      (run_http e n ≡ none)
      × (e.pod_controller ≡ is_ready)
      × (e.node_controller ≡ is_ready)
      × (ready_cb e n ≡ none)

  serve-ready :
      (e : Events) (x : Option Error) (n : Node C T)
      → n.ready ≡ false
      → (serve e x n).1.ready ≡ true
      → x ≡ none
  unfolding serve
  serve-ready e (some x) n f h = cc
  serve-ready e none n f h = refl

  await_node-ready :
      (e : Events) (s : Start) (n : Node C T)
      → n.ready ≡ false
      → (await_node e s n).1.ready ≡ true
      → (s ≡ is_ready) × (ready_cb e n ≡ none)
  unfolding await_node
  await_node-ready e context_done n f h = cc
  await_node-ready e is_ready n f h = (refl, serve-ready e (ready_cb e n) n f h)
  await_node-ready e (has_ended x) n f h = cc

  await_pods-ready :
      (e : Events) (s : Start) (n : Node C T)
      → n.ready ≡ false
      → (await_pods e s n).1.ready ≡ true
      → (s ≡ is_ready) × (e.node_controller ≡ is_ready) × (ready_cb e n ≡ none)
  unfolding await_pods
  await_pods-ready e context_done n f h = cc
  await_pods-ready e is_ready n f h =
      let r = await_node-ready e e.node_controller n f h in (refl, r.0, r.1)
  await_pods-ready e (has_ended x) n f h = cc

  after_listen-ready :
      (e : Events) (x : Option Error) (n : Node C T)
      → n.ready ≡ false
      → (after_listen e x n).1.ready ≡ true
      → (x ≡ none)
        × (e.pod_controller ≡ is_ready)
        × (e.node_controller ≡ is_ready)
        × (ready_cb e n ≡ none)
  unfolding after_listen
  after_listen-ready e (some x) n f h = cc
  after_listen-ready e none n f h =
      let r = await_pods-ready e e.pod_controller n f h in (refl, r.0, r.1, r.2)

  run-ready :
      (e : Events) (n : Node C T) → n.ready ≡ false → (run e n).1.ready ≡ true → HasStarted e n
  unfolding run
  run-ready e n f h = after_listen-ready e (run_http e n) n f h

  -- When WaitReady can return no error for a node that Run was called on while its ready channel
  -- was open, then starting the listener gave no error, both controllers were ready, and the
  -- ready callback gave no error.
  pub WaitReady-none :
      (e : Events) (n : Node C T) (context : Option Error)
      → n.ready ≡ false
      → WaitReady (run e n).1 context none
      → HasStarted e n
  WaitReady-none e n context f (ready_closed h) = run-ready e n f h

  -- When starting the listener gives no error, the context is done before the pod controller is
  -- ready, and the node holds no error before, then Err gives no error after Run.
  pub run_cancelled :
      (e : Events) (n : Node C T)
      → run_http e n ≡ none
      → e.pod_controller ≡ context_done
      → n.error ≡ none
      → node_err (run e n).1 ≡ none
  unfolding run node_err after_listen await_pods
  run_cancelled e n a b c = rw (a, b) c
