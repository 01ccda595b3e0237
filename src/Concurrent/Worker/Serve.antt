-- ===== src/Concurrent/Worker/Serve.antt =====
-- The requests that a worker of concurrent/worker.go serves.
use developer_gateway.Prelude.{
  ◌+◌, ◌-◌, ◌≤◌, ◌≡◌, refl, true, false, List, [], ◌∷◌, String, ◌==◌, same_refl, arith,
}
use developer_gateway.Concurrent.Worker.{
  WorkerEvent, request_event, Answer, value_of, Response, WorkerRequest, Received, context_done,
  channel_closed, error_channel_closed, timer_fired, error_received, request_received,
  execute_received, Worker, process_request, handle_request, handle_execute, start_loop,
}

-- What keeps a worker going: requests of its own, and timers until so many seconds have passed since
-- it was made as its maximal inactivity has nanoseconds.
abbrev IsServed : {V : Type 0} → Worker → List (Received V) → Type 0
IsServed w [] = Unit
IsServed w (timer_fired current ∷ rs) =
    (current ≤ w.last_event_timestamp + w.max_inactivity) × IsServed w rs
IsServed w (request_received req ∷ rs) = (req.key ≡ w.key) × IsServed w rs
IsServed w (execute_received v ∷ rs) = IsServed w rs
IsServed w _ = ⊥

-- The answers of the handler to the requests, one after another.
unfoldable pub answers :
    {V W S : Type 0}
    → (WorkerEvent V → S → Answer W × S)
    → (key : String) → List (Received V)
    → S
    → List (Response W) × S
answers handler key [] s = ([], s)
answers handler key (request_received req ∷ rs) s =
    let (answer, s') = handler (request_event req.value) s in
    let (rest, s'') = answers handler key rs s' in
    (record { value = value_of answer; key = key; closed = req.count - 1 == 0 } ∷ rest, s'')
answers handler key (execute_received v ∷ rs) s =
    let (answer, s') = handler (request_event v) s in
    let (rest, s'') = answers handler key rs s' in
    (record { value = value_of answer; key = key; closed = true } ∷ rest, s'')
answers handler key (_ ∷ rs) s = answers handler key rs s

module _ {V W S : Type 0} (handler : WorkerEvent V → S → Answer W × S) (w : Worker) where
  own_request :
      (req : WorkerRequest V) (s : S)
      → req.key ≡ w.key
      → process_request handler w req s ≡ handler (request_event req.value) s
  unfolding process_request
  own_request req s own = rw (process_request, own, same_refl w.key) refl

  -- A worker that receives only requests of its own key, shared requests, and timers within its
  -- limit, goes on, and gives exactly one response to each request, in order, with its key and the
  -- answer of the handler, in which a panic is an error.
  pub worker_answers_each :
      (rs : List (Received V)) (s : S)
      → IsServed w rs
      → start_loop handler w rs s
        ≡ ((answers handler w.key rs s).0, (answers handler w.key rs s).1, false)
  unfolding start_loop answers handle_request handle_execute
  worker_answers_each [] s h = refl
  worker_answers_each (timer_fired current ∷ rs) s (early, h) =
      ground (arith, worker_answers_each rs s h)
  worker_answers_each (request_received req ∷ rs) s (own, h) =
      rw (own_request req s own, worker_answers_each rs (handler (request_event req.value) s).1 h)
        refl
  worker_answers_each (execute_received v ∷ rs) s h =
      rw
        (
          own_request (record { key = w.key; value = v; count = 1 }) s refl,
          worker_answers_each rs (handler (request_event v) s).1 h,
        )
        refl
  worker_answers_each (context_done ∷ rs) s h = absurd h
  worker_answers_each (channel_closed ∷ rs) s h = absurd h
  worker_answers_each (error_channel_closed ∷ rs) s h = absurd h
  worker_answers_each (error_received text ∷ rs) s h = absurd h
