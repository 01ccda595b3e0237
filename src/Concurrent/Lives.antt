-- ===== src/Concurrent/Lives.antt =====
-- Masters and workers on a few actions and requests: runs of the code, and the theorems at such inputs.
use developer_gateway.Prelude.{
  ℕ, ◌+◌, ◌≤◌, ◌≡◌, refl, true, false, none, List, [], ◌∷◌, String, ◌==◌, if◌then◌else◌, has, same,
  arith,
}
use developer_gateway.Concurrent.Master.{
  Master, create_request, destroy_request, worker_request, new_master, Action, takes, notices,
  ends_itself, step, run, shutdown, handle_request, handle_worker_request, create_worker,
}
use developer_gateway.Concurrent.Master.Accounts.{
  IsAccounted, worker_count_accounts, ended_worker_blocks_stop,
}
use developer_gateway.Concurrent.Master.Graceful.{Reached, started, stepped}
use developer_gateway.Concurrent.Master.Shutdown.{shutdown_drains}
use developer_gateway.Concurrent.Worker.{
  WorkerEvent, request_event, error_event, Answer, returns, fails, panics, new_worker, Received,
  timer_fired, request_received, execute_received, start_loop,
}
use developer_gateway.Concurrent.Worker.Serve.{answers, worker_answers_each}

abbrev creates_two : List Action
creates_two = takes (create_request "a") none ∷ takes (worker_request "b") none ∷ []

two_workers : (run true creates_two new_master).running ≡ "b" ∷ "a" ∷ []
unfolding run step handle_request handle_worker_request create_worker same
two_workers = refl

worker_count_accounts_example : IsAccounted (run true creates_two new_master)
worker_count_accounts_example = worker_count_accounts true creates_two

is_running : has "a" (run true creates_two new_master).running ≡ true
unfolding run step handle_request handle_worker_request create_worker same
is_running = refl

is_active : has "a" (run true creates_two new_master).shutdown_workers ≡ false
unfolding run step handle_request handle_worker_request create_worker same
is_active = refl

no_events : (run true creates_two new_master).done ≡ []
unfolding run step handle_request handle_worker_request create_worker same
no_events = refl

-- The key is destroyed after its worker has ended.
ended_worker_blocks_stop_example :
    1
    ≤ (run true (takes (destroy_request "a") none ∷ notices ∷ []) (
        step true notices
          (step true (ends_itself "a") (run true creates_two new_master)))).worker_count
ended_worker_blocks_stop_example =
    ended_worker_blocks_stop true creates_two (takes (destroy_request "a") none ∷ notices ∷ []) "a"
      is_running is_active no_events

abbrev one_worker : Master
one_worker = step true (takes (create_request "a") none) new_master

one_worker-Reached : Reached true one_worker
one_worker-Reached = stepped (takes (create_request "a") none) new_master started refl

shutdown_drains_example :
    ((shutdown true one_worker).worker_count ≡ 0)
    × ((shutdown true one_worker).workers ≡ [])
    × ((shutdown true one_worker).shutdown_workers ≡ [])
shutdown_drains_example = shutdown_drains true one_worker one_worker-Reached

-- A handler that counts its calls, and panics at the second one.
abbrev counting : WorkerEvent String → ℕ → Answer ℕ × ℕ
counting (request_event v) n = (if n == 1 then panics "two" else returns n, n + 1)
counting (error_event text) n = (fails text, n)

abbrev received : List (Received String)
received =
    request_received (record { key = "a"; value = "x"; count = 1 })
    ∷ timer_fired 3600
    ∷ execute_received "y"
    ∷ []

worker_answers_each_example :
    start_loop counting (new_worker "a" 0 0) received 0
    ≡ ((answers counting "a" received 0).0, (answers counting "a" received 0).1, false)
unfolding new_worker
worker_answers_each_example =
    worker_answers_each counting (new_worker "a" 0 0) received 0 (refl, (omega arith, tt))
