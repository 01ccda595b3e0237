-- ===== src/Concurrent/Master.antt =====
-- `Master` of concurrent/master.go with the lifetimes of its workers (concurrent/worker.go), as steps
-- of the master and of the goroutines of the workers. The maps of workers are lists of keys without
-- repetitions. What a worker does with a request is left aside.
pub mod Keys
pub mod Accounts
pub mod Graceful
pub mod Shutdown
use developer_gateway.Prelude.{
  ℕ, ◌+◌, ◌-◌, Bool, true, false, Option, none, some, List, [], ◌∷◌, ◌++◌, String, ◌==◌, length,
  if◌then◌else◌, has, same,
}

-- The requests of the master's channel.
pub data MasterRequest : Type 0 where
  worker_request create_request destroy_request exists_request : String → MasterRequest
  execute_request broadcast_request : MasterRequest

-- What a request is answered with: an error, whether the worker exists, the end of a creation, the
-- channel that a destruction is awaited on; or it is passed on to the workers of some keys, or to any.
pub data MasterAnswer : Type 0 where
  refused : (text : String) → MasterAnswer
  exists : Bool → MasterAnswer
  created shutting_down shared : MasterAnswer
  forwarded : List String → MasterAnswer

-- The keys of `m.workers` and of `m.shutdownWorkers`, and the counter of `m.workerCount`. The
-- goroutines of workers whose channel is open, of those whose channel is closed, and the events in
-- `m.doneCh`, by their keys. `dropped` counts the events that `removeWorker` has ignored.
pub record Master : Type 0 where
  pub workers : List String
  pub shutdown_workers : List String
  pub worker_count : ℕ
  pub running : List String
  pub closing : List String
  pub done : List String
  pub dropped : ℕ

abbrev pub new_master : Master
new_master = record {
  workers = [];
  shutdown_workers = [];
  worker_count = 0;
  running = [];
  closing = [];
  done = [];
  dropped = 0;
}

-- One occurrence of a key is taken out.
abbrev pub take_out : String → List String → List String
take_out k [] = []
take_out k (x ∷ xs) = let rest = take_out k xs in if same k x then xs else x ∷ rest

-- `m[key] = w`
unfoldable pub put_key : String → List String → List String
put_key k keys = if has k keys then keys else k ∷ keys

-- `createWorker`; the handler fails with a text, by an error or by a panic.
unfoldable pub create_worker : String → Option String → Master → Option String × Master
create_worker key failure m =
    let made : Master = record m {
      workers = key ∷ m.workers;
      running = key ∷ m.running;
      worker_count = m.worker_count + 1;
    } in
    if has key m.workers
    then (some "worker already exists", m)
    else elim failure [ some text ↦ (some text, m) | none ↦ (none, made) ]

-- `shutdownWorker`
unfoldable pub shutdown_worker : String → Master → Bool × Master
shutdown_worker key m =
    if has key m.workers
    then (
      true,
      record m {
        workers = take_out key m.workers;
        shutdown_workers = put_key key m.shutdown_workers;
        running = take_out key m.running;
        closing = if has key m.running then key ∷ m.closing else m.closing;
      },
    )
    else (false, m)

-- `removeWorker`
unfoldable pub remove_worker : String → Master → Master
remove_worker key m =
    if has key m.shutdown_workers
    then record m {
      shutdown_workers = take_out key m.shutdown_workers;
      worker_count = m.worker_count - 1;
    }
    else record m { dropped = m.dropped + 1 }

-- `handleWorkerRequest`
unfoldable pub handle_worker_request :
    (create_worker_on_request : Bool) → String → Option String → Master → MasterAnswer × Master
handle_worker_request on_request key failure m =
    let (text, made) = create_worker key failure m in
    if has key m.workers
    then (forwarded (key ∷ []), m)
    else if on_request
    then elim text [ some t ↦ (refused t, made) | none ↦ (forwarded (key ∷ []), made) ]
    else (refused "worker does not exist", m)

-- `handleRequest`; `failure` is what the master's handler answers if a worker is created.
unfoldable pub handle_request :
    (create_worker_on_request : Bool)
    → MasterRequest
    → (failure : Option String) → Master
    → MasterAnswer × Master
handle_request on_request (worker_request key) failure m =
    handle_worker_request on_request key failure m
handle_request on_request (create_request key) failure m =
    let (text, made) = create_worker key failure m in
    elim text [ some t ↦ (refused t, made) | none ↦ (created, made) ]
handle_request on_request (destroy_request key) failure m =
    let (known, closed) = shutdown_worker key m in
    if known then (shutting_down, closed) else (refused "worker does not exist", closed)
handle_request on_request (exists_request key) failure m = (exists (has key m.workers), m)
handle_request on_request execute_request failure m =
    if length m.workers == 0
    then (refused "no workers available to handle the execute request", m)
    else (shared, m)
handle_request on_request broadcast_request failure m =
    if length m.workers == 0
    then (refused "no workers available to handle the execute request", m)
    else (forwarded m.workers, m)

-- What happens: the master takes a request, or an event of `m.doneCh`; the goroutine of a worker ends
-- after its channel is closed, or by itself.
pub data Action : Type 0 where
  takes : MasterRequest → (failure : Option String) → Action
  notices : Action
  finishes : (key : String) → Action
  ends_itself : (key : String) → Action

-- The oldest event of `m.doneCh`, if there is one.
unfoldable pub notice : List String → Master → Master
notice [] m = m
notice (key ∷ keys) m = remove_worker key (record m { done = keys })

-- An action; one of a worker that has no such goroutine is none.
unfoldable pub step : (create_worker_on_request : Bool) → Action → Master → Master
step on_request (takes req failure) m = (handle_request on_request req failure m).1
step on_request notices m = notice m.done m
step on_request (finishes key) m =
    if has key m.closing
    then record m { closing = take_out key m.closing; done = m.done ++ (key ∷ []) }
    else m
step on_request (ends_itself key) m =
    if has key m.running
    then record m { running = take_out key m.running; done = m.done ++ (key ∷ []) }
    else m

unfoldable pub run : (create_worker_on_request : Bool) → List Action → Master → Master
run on_request [] m = m
run on_request (a ∷ actions) m = run on_request actions (step on_request a m)

-- `shutdown`, with what the workers do then: the master closes the channels of its workers, their
-- goroutines end, and the master handles their events.
unfoldable pub close_all : List String → Master → Master
close_all [] m = m
close_all (key ∷ keys) m = close_all keys (shutdown_worker key m).1

unfoldable pub finish_all : (create_worker_on_request : Bool) → List String → Master → Master
finish_all on_request [] m = m
finish_all on_request (key ∷ keys) m = finish_all on_request keys (step on_request (finishes key) m)

-- The loop of `shutdown` over the events, which ends when no worker is left that is being shut
-- down; without an event it waits, until `Stop` closes the channel.
unfoldable pub notice_all : List String → Master → Master
notice_all [] m = m
notice_all (key ∷ keys) m =
    let noticed = notice m.done m in
    let rest = notice_all keys noticed in
    if length noticed.shutdown_workers == 0 then noticed else rest

unfoldable pub shutdown : (create_worker_on_request : Bool) → Master → Master
shutdown on_request m =
    let closed = close_all m.workers m in
    let finished = finish_all on_request closed.closing closed in notice_all finished.done finished
