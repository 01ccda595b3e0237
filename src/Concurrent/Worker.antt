-- ===== src/Concurrent/Worker.antt =====
-- `Worker` of concurrent/worker.go: what its goroutine does with all that it receives. The requests of
-- its own channel and of the shared one come in the order in which the select statement takes them.
pub mod Serve
use developer_gateway.Prelude.{
  ℕ, ◌+◌, ◌-◌, Bool, true, false, Option, none, some, List, [], ◌∷◌, String, ltb, ◌==◌, same, ◌⊎◌,
  inl, inr, if◌then◌else◌,
}

-- What the worker's handler is called with.
pub data WorkerEvent (V : Type 0) : Type 0 where
  request_event : V → WorkerEvent V
  error_event : (text : String) → WorkerEvent V

-- What the handler does with an event.
pub data Answer (W : Type 0) : Type 0 where
  returns : W → Answer W
  fails panics : (text : String) → Answer W

-- What a response says of an answer: a panic is an error.
abbrev pub value_of : {W : Type 0} → Answer W → W ⊎ String
value_of (returns v) = inl v
value_of (fails text) = inr text
value_of (panics text) = inr text

-- `Response`, and whether its channel is closed after it.
pub record Response (W : Type 0) : Type 0 where
  pub value : W ⊎ String
  pub key : String
  pub closed : Bool

-- `workerRequest`, with the number of answers that are still to come.
pub record WorkerRequest (V : Type 0) : Type 0 where
  pub key : String
  pub value : V
  pub count : ℕ

-- What the select statement of `startLoop` receives; the time of a timer is in seconds.
pub data Received (V : Type 0) : Type 0 where
  context_done channel_closed error_channel_closed : Received V
  timer_fired : (current : ℕ) → Received V
  error_received : (text : String) → Received V
  request_received : WorkerRequest V → Received V
  execute_received : V → Received V

-- `WorkerProps`; the maximal inactivity is in nanoseconds.
pub record Worker : Type 0 where
  pub key : String
  pub last_event_timestamp : ℕ
  pub max_inactivity : ℕ

abbrev hour : ℕ
hour = 3600000000000

-- `NewWorker`
unfoldable pub new_worker : (key : String) (max_inactivity now : ℕ) → Worker
new_worker key max_inactivity now = record {
  key = key;
  last_event_timestamp = now;
  max_inactivity = if max_inactivity == 0 then hour else max_inactivity;
}

module _ {V W S : Type 0} (handler : WorkerEvent V → S → Answer W × S) (w : Worker) where
  -- `processRequest`
  unfoldable pub process_request : WorkerRequest V → S → Answer W × S
  process_request req s =
      let handled = handler (request_event req.value) s in
      if same req.key w.key
      then handled
      else (panics "received request intended for another worker", s)

  -- `handleRequest`: a panic is answered as an error.
  unfoldable pub handle_request : WorkerRequest V → S → Response W × S
  handle_request req s =
      let (answer, s') = process_request req s in
      (record { value = value_of answer; key = w.key; closed = req.count - 1 == 0 }, s')

  -- `handleExecute`
  unfoldable pub handle_execute : V → S → Response W × S
  handle_execute v s = handle_request (record { key = w.key; value = v; count = 1 }) s

  -- `handleError`: whether the worker goes on.
  unfoldable pub handle_error : String → S → Bool × S
  handle_error text s =
      let (answer, s') = handler (error_event text) s in
      (elim answer [ returns v ↦ true | fails t ↦ false | panics t ↦ false ], s')

  -- `startLoop`: the responses, the state of the handler, and whether the goroutine has ended.
  unfoldable pub start_loop : List (Received V) → S → List (Response W) × S × Bool
  start_loop [] s = ([], s, false)
  start_loop (context_done ∷ rs) s = ([], s, true)
  start_loop (channel_closed ∷ rs) s = ([], s, true)
  start_loop (error_channel_closed ∷ rs) s = ([], s, true)
  start_loop (timer_fired current ∷ rs) s =
      let rest = start_loop rs s in
      if ltb w.max_inactivity (current - w.last_event_timestamp) then ([], s, true) else rest
  start_loop (error_received text ∷ rs) s =
      let (goes_on, s') = handle_error text s in
      let rest = start_loop rs s' in if goes_on then rest else ([], s', true)
  start_loop (request_received req ∷ rs) s =
      let (response, s') = handle_request req s in
      let (responses, s'', ended) = start_loop rs s' in (response ∷ responses, s'', ended)
  start_loop (execute_received v ∷ rs) s =
      let (response, s') = handle_execute v s in
      let (responses, s'', ended) = start_loop rs s' in (response ∷ responses, s'', ended)
