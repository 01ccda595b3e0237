-- ===== src/Concurrent/Master/Accounts.antt =====
-- What the counter of `Master.workerCount` counts (concurrent/master.go).
use developer_gateway.Prelude.{
  ◌+◌, ◌≤◌, ◌≡◌, refl, Bool, true, false, Option, List, [], ◌∷◌, String, length, length-append, has,
  arith,
}
use developer_gateway.Concurrent.Master.{
  Master, MasterRequest, worker_request, create_request, destroy_request, exists_request,
  execute_request, broadcast_request, new_master, create_worker, shutdown_worker, remove_worker,
  handle_worker_request, handle_request, Action, takes, notices, finishes, ends_itself, notice,
  step, run,
}
use developer_gateway.Concurrent.Master.Keys.{length-take_out, take_out_absent}

-- The counter counts the goroutines, the events to handle, and the events that were ignored.
abbrev pub IsAccounted : Master → Type 0
IsAccounted m = m.worker_count ≡ length m.running + length m.closing + length m.done + m.dropped

create_worker-IsAccounted :
    (key : String) (failure : Option String) (m : Master)
    → IsAccounted m
    → IsAccounted (create_worker key failure m).1
unfolding create_worker
create_worker-IsAccounted key failure m h = ground arith

shutdown_worker-IsAccounted :
    (key : String) (m : Master) → IsAccounted m → IsAccounted (shutdown_worker key m).1
unfolding shutdown_worker
shutdown_worker-IsAccounted key m h =
    ground (arith, length-take_out key m.running, take_out_absent key m.running)

handle_request-IsAccounted :
    (on_request : Bool) (req : MasterRequest) (failure : Option String) (m : Master)
    → IsAccounted m
    → IsAccounted (handle_request on_request req failure m).1
unfolding handle_request handle_worker_request
handle_request-IsAccounted on_request (worker_request key) failure m h =
    ground (arith, create_worker-IsAccounted key failure m h)
handle_request-IsAccounted on_request (create_request key) failure m h =
    ground (arith, create_worker-IsAccounted key failure m h)
handle_request-IsAccounted on_request (destroy_request key) failure m h =
    ground (arith, shutdown_worker-IsAccounted key m h)
handle_request-IsAccounted on_request (exists_request key) failure m h = h
handle_request-IsAccounted on_request execute_request failure m h = ground arith
handle_request-IsAccounted on_request broadcast_request failure m h = ground arith

notice-IsAccounted :
    (keys : List String) (m : Master) → m.done ≡ keys → IsAccounted m → IsAccounted (notice keys m)
unfolding notice remove_worker
notice-IsAccounted [] m e h = h
notice-IsAccounted (key ∷ keys) m e h = ground arith

pub step-IsAccounted :
    (on_request : Bool) (a : Action) (m : Master)
    → IsAccounted m
    → IsAccounted (step on_request a m)
unfolding step
step-IsAccounted on_request (takes req failure) m h =
    handle_request-IsAccounted on_request req failure m h
step-IsAccounted on_request notices m h = notice-IsAccounted m.done m refl h
step-IsAccounted on_request (finishes key) m h =
    ground (arith, length-take_out key m.closing, length-append m.done (key ∷ []))
step-IsAccounted on_request (ends_itself key) m h =
    ground (arith, length-take_out key m.running, length-append m.done (key ∷ []))

run-IsAccounted :
    (on_request : Bool) (actions : List Action) (m : Master)
    → IsAccounted m
    → IsAccounted (run on_request actions m)
unfolding run
run-IsAccounted on_request [] m h = h
run-IsAccounted on_request (a ∷ actions) m h =
    run-IsAccounted on_request actions (step on_request a m) (step-IsAccounted on_request a m h)

-- After any actions, the counter of a new master is the number of its workers' goroutines, of the
-- events that it has still to handle, and of the events that it has ignored.
pub worker_count_accounts :
    (on_request : Bool) (actions : List Action) → IsAccounted (run on_request actions new_master)
worker_count_accounts on_request actions = run-IsAccounted on_request actions new_master refl

dropped-notice : (keys : List String) (m : Master) → m.dropped ≤ (notice keys m).dropped
unfolding notice remove_worker
dropped-notice [] m = omega arith
dropped-notice (key ∷ keys) m = ground arith

dropped-step :
    (on_request : Bool) (a : Action) (m : Master) → m.dropped ≤ (step on_request a m).dropped
unfolding step handle_request handle_worker_request create_worker shutdown_worker
dropped-step on_request (takes (worker_request key) failure) m = ground arith
dropped-step on_request (takes (create_request key) failure) m = ground arith
dropped-step on_request (takes (destroy_request key) failure) m = ground arith
dropped-step on_request (takes (exists_request key) failure) m = ground arith
dropped-step on_request (takes execute_request failure) m = ground arith
dropped-step on_request (takes broadcast_request failure) m = ground arith
dropped-step on_request notices m = dropped-notice m.done m
dropped-step on_request (finishes key) m = ground arith
dropped-step on_request (ends_itself key) m = ground arith

dropped-run :
    (on_request : Bool) (actions : List Action) (m : Master)
    → m.dropped ≤ (run on_request actions m).dropped
unfolding run
dropped-run on_request [] m = omega arith
dropped-run on_request (a ∷ actions) m =
    omega (arith, dropped-step on_request a m, dropped-run on_request actions (step on_request a m))

-- The event of a worker that has ended by itself is ignored.
ignored_event :
    (on_request : Bool) (key : String) (m : Master)
    → has key m.running ≡ true
    → has key m.shutdown_workers ≡ false
    → m.done ≡ []
    → 1 ≤ (step on_request notices (step on_request (ends_itself key) m)).dropped
unfolding step notice remove_worker
ignored_event on_request key m live active none_left =
    rw (step, live, none_left, notice, active) (omega arith)

-- If a worker ends by itself, while no worker of its key is shutting down and no event is left to
-- handle, and the master handles its event next, then the counter that Stop waits for is positive
-- after any further actions.
pub ended_worker_blocks_stop :
    (on_request : Bool) (actions more : List Action) (key : String)
    → has key (run on_request actions new_master).running ≡ true
    → has key (run on_request actions new_master).shutdown_workers ≡ false
    → (run on_request actions new_master).done ≡ []
    → 1
      ≤ (run on_request more (
          step on_request notices
            (step on_request (ends_itself key) (run on_request actions new_master)))).worker_count
ended_worker_blocks_stop on_request actions more key live active none_left =
    let m = run on_request actions new_master in
    let m' = step on_request notices (step on_request (ends_itself key) m) in
    let accounted = run-IsAccounted on_request more m' (
      step-IsAccounted on_request notices _ (
        step-IsAccounted on_request (ends_itself key) m
          (worker_count_accounts on_request actions))) in
    omega (
      arith,
      accounted,
      dropped-run on_request more m',
      ignored_event on_request key m live active none_left,
    )
