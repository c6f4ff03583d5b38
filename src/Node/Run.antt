-- ===== src/Node/Run.antt =====
-- internal/node/nodeutil/controller.go: Run, WaitReady and Err. What the two controllers, the
-- listener, the ready callback and the context do during one call of Run is a value of `Events`.
use virtual_kubelet_cmd.Base.{true, false, Option, none, some, ◌≡◌}
use virtual_kubelet_cmd.Errors.{Error, plain, wrapped}
use virtual_kubelet_cmd.Node.Controller.{Node}

-- The case of a select that is taken while a controller starts: the context is done, the
-- controller is ready, or it has ended with its error.
pub data Start : Type 0 where
  context_done : Start
  is_ready : Start
  has_ended : Option Error → Start

pub record Events : Type 0 where
  -- the error of tls.Listen
  pub listen : Option Error
  pub pod_controller : Start
  pub node_controller : Start
  -- the error of ctx.Err() once the context is done
  pub context_error : Error
  -- the error of UpdateStatus in the ready callback
  pub update_status : Option Error
  -- the error of the controller that ends first
  pub end : Option Error

-- `fmt.Errorf("controller exited before ready: %w", n.err)`
abbrev pub exited_before_ready : Option Error → Error
exited_before_ready none = plain "controller exited before ready: %!w(<nil>)"
exited_before_ready (some e) = wrapped "controller exited before ready" e

module _ {C T : Type 0} where
  -- runHTTP: the error that it returns.
  unfoldable pub run_http : Events → Node C T → Option Error
  run_http e n = elim n.tls_config [
    | none ↦ none
    | some t ↦ elim n.handler [
      | none ↦ none
      | some h ↦ elim e.listen [
        | none ↦ none
        | some x ↦ some (wrapped "error starting http listener" x)
      ]
    ]
  ]

  -- The ready callback, if there is one: `errors.Wrap` of no error is no error.
  unfoldable pub ready_cb : Events → Node C T → Option Error
  ready_cb e n = elim n.has_ready_cb [
    | false ↦ none
    | true ↦ elim e.update_status [
      | none ↦ none
      | some x ↦ some (wrapped "error marking node as ready" x)
    ]
  ]

  -- From the ready callback on, with what it returned: the channel is closed, and the first of the
  -- two controllers to end gives the result.
  unfoldable pub serve : Events → Option Error → Node C T → Option Error × Node C T
  serve e (some x) n = (some x, n)
  serve e none n = (e.end, record n { ready = true })

  unfoldable pub await_node : Events → Start → Node C T → Option Error × Node C T
  unfolding ready_cb serve
  await_node e context_done n = (some e.context_error, record n { error = some e.context_error })
  await_node e is_ready n = serve e (ready_cb e n) n
  await_node e (has_ended x) n = (x, n)

  unfoldable pub await_pods : Events → Start → Node C T → Option Error × Node C T
  unfolding await_node
  await_pods e context_done n = (n.error, n)
  await_pods e is_ready n = await_node e e.node_controller n
  await_pods e (has_ended x) n = (x, n)

  unfoldable pub after_listen : Events → Option Error → Node C T → Option Error × Node C T
  unfolding await_pods
  after_listen e (some x) n = (some x, n)
  after_listen e none n = await_pods e e.pod_controller n

  -- The deferred function of Run: it keeps the error that is returned and closes the channel.
  abbrev pub finish : Option Error × Node C T → Option Error × Node C T
  finish (x, n) = (x, record n { error = x; done = true })

  unfoldable pub run : Events → Node C T → Option Error × Node C T
  unfolding after_listen run_http
  run e n = finish (after_listen e (run_http e n) n)

  -- Err
  unfoldable pub node_err : Node C T → Option Error
  node_err n = elim n.done [ true ↦ n.error | false ↦ none ]

  -- The results that WaitReady can give for a node: its select takes any case that can proceed. The
  -- error of the context is given once the context is done.
  pub data WaitReady (n : Node C T) (context : Option Error) : Option Error → Type 0 where
    ready_closed : n.ready ≡ true → WaitReady n context none
    done_closed : n.done ≡ true → WaitReady n context (some (exited_before_ready n.error))
    expired : (e : Error) → context ≡ some e → WaitReady n context (some e)
