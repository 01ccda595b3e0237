-- ===== src/Eth/Subscription.antt =====
-- `Subscription` of eth/subscription.go: the worker of a subscription, which subscribes again when an
-- error is reported. The channel of errors that the worker listens to is that of the first
-- subscription: its goroutine reports one error at most, and closes the channel.
use developer_gateway.Prelude.{◌≡◌, true, Option, none, some, List, [], ◌∷◌, String, arith}
use developer_gateway.Concurrent.Worker.{
  WorkerEvent, request_event, error_event, Answer, returns, fails, panics, Received, error_received,
  error_channel_closed, Worker, start_loop, handle_error,
}

-- What the worker receives on the channel of errors, if the goroutine reports an error.
abbrev error_then_closed : (text : String) → List (Received ⊥) → List (Received ⊥)
error_then_closed text rs = error_received text ∷ (error_channel_closed ∷ rs)

module _ {N : Type 0} (subscribe : N → Option String × N) where
  -- `handle`: an error is answered by subscribing again, and a request is a panic. `subscribe` calls the
  -- client, and fails with a text.
  unfoldable pub handle : WorkerEvent ⊥ → N → Answer (Unit {0}) × N
  handle (request_event v) n = (panics "no requests should be issued to the subscription", n)
  handle (error_event text) n =
      let (refusal, n') = subscribe n in (elim refusal [ none ↦ returns tt | some t ↦ fails t ], n')

  -- After the first error that is reported, the worker subscribes once more, gives no response and
  -- ends, whatever it would receive later.
  subscription_worker_ends :
      (w : Worker) (text : String) (later : List (Received ⊥)) (n : N)
      → start_loop handle w (error_then_closed text later) n ≡ ([], (subscribe n).1, true)
  unfolding start_loop handle_error handle
  subscription_worker_ends w text later n = ground arith
