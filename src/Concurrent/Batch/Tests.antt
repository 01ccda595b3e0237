-- ===== src/Concurrent/Batch/Tests.antt =====
-- A batch of three suppliers on two goroutines.
use developer_gateway.Prelude.{
  ℕ, ◌+◌, ◌*◌, ◌≤◌, ◌≡◌, refl, true, none, some, List, [], ◌∷◌, length, arith, ◌⊎◌,
}
use developer_gateway.Concurrent.Batch.{
  Batch, Action, submit, collect, receive, supply_one, start_batch, run_steps, batch_step,
  has_returned, submit_next, receive_argument, send_result, collect_result,
}
use developer_gateway.Concurrent.Batch.Order.{batch_returns_in_order}
use developer_gateway.Concurrent.Batch.Progress.{GoesOn, batch_completes}

abbrev square : ℕ → ℕ
square i = i * i + 10

-- The second goroutine is faster than the first one.
abbrev schedule : List Action
schedule =
    submit
    ∷ submit
    ∷ receive 1
    ∷ supply_one 1
    ∷ submit
    ∷ collect
    ∷ receive 0
    ∷ supply_one 0
    ∷ receive 0
    ∷ supply_one 0
    ∷ collect
    ∷ collect
    ∷ []

abbrev finished : Batch ℕ
finished = record {
  workers = record { arg_ch = []; held = none } ∷ record { arg_ch = []; held = none } ∷ [];
  submitted = 3;
  res_ch = [];
  result = some 10 ∷ some 11 ∷ some 14 ∷ [];
  counter = 3;
}

schedule_finishes : run_steps square 3 schedule (start_batch 2 3) ≡ some finished
unfolding run_steps batch_step start_batch submit_next receive_argument send_result collect_result
schedule_finishes = refl

batch_returns_in_order_example : finished.result ≡ some 10 ∷ some 11 ∷ some 14 ∷ []
batch_returns_in_order_example =
    batch_returns_in_order square 3 2 schedule finished schedule_finishes refl

batch_completes_example :
    (length schedule ≤ 4 * 3) × ((has_returned 3 finished ≡ true) ⊎ GoesOn square 3 finished)
batch_completes_example =
    batch_completes square 3 2 schedule finished (omega arith) schedule_finishes
