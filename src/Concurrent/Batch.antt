-- ===== src/Concurrent/Batch.antt =====
-- `BatchRunner` of concurrent/conc.go: the goroutine that submits a batch, the goroutines that run its
-- suppliers, and the loop of `Run` that collects the results, in any interleaving, while the context is
-- not done. An argument is known by its index; `supply` is what the call of the supplier with an index
-- gives, with the times that a result has.
pub mod Locations
pub mod Progress
pub mod Steps
pub mod Order
mod Tests
use developer_gateway.Prelude.{
  ℕ, zero, suc, ◌+◌, ◌%◌, Bool, true, false, Option, none, some, List, [], ◌∷◌, ◌++◌, length,
  get_elem?, set, replicate, ltb, ◌==◌, not, if◌then◌else◌,
}

-- A goroutine: its channel of arguments, and the argument that it has received.
pub record BatchWorker : Type 0 where
  pub arg_ch : List ℕ
  pub held : Option ℕ

-- `BatchRunner` within `Run`.
pub record Batch (V : Type 0) : Type 0 where
  pub workers : List BatchWorker
  pub submitted : ℕ
  pub res_ch : List (ℕ × V)
  pub result : List (Option V)
  pub counter : ℕ

-- The capacity of the channels.
abbrev pub capacity : ℕ
capacity = 64

-- `defaultConcurrency`, for a configuration without one.
abbrev pub concurrency_or_default : ℕ → ℕ
concurrency_or_default concurrency = if concurrency == 0 then 2 else concurrency

abbrev pub idle_worker : BatchWorker
idle_worker = record { arg_ch = []; held = none }

-- `NewBatchRunnerWithConfig`, and the beginning of `Run` with as many suppliers as `size`.
unfoldable pub start_batch : {V : Type 0} → (concurrency size : ℕ) → Batch V
start_batch concurrency size = record {
  workers = replicate (concurrency_or_default concurrency) idle_worker;
  submitted = 0;
  res_ch = [];
  result = replicate size none;
  counter = 0;
}

-- A step of one of the goroutines; the worker is given by its number.
pub data Action : Type 0 where
  submit collect : Action
  receive supply_one : (worker : ℕ) → Action

abbrev change_worker : {V : Type 0} → Batch V → ℕ → BatchWorker → Batch V
change_worker b k w = record b { workers = set b.workers k w }

abbrev send_to : {V : Type 0} → Batch V → ℕ → BatchWorker → Option (Batch V)
send_to b k w =
    if ltb (length w.arg_ch) capacity
    then some (record b {
      workers = set b.workers k (record w { arg_ch = w.arg_ch ++ (b.submitted ∷ []) });
      submitted = b.submitted + 1;
    })
    else none

-- The goroutine of `Run`: the next argument, to the channel of its worker, if it has room.
unfoldable pub submit_next : {V : Type 0} → (size : ℕ) → Batch V → Option (Batch V)
submit_next {V} size b =
    let k = b.submitted % length b.workers in
    let sent = elim (get_elem? b.workers k) as (λ _. Option (Batch V)) [
      | none ↦ none
      | some w ↦ send_to b k w
    ] in
    if ltb b.submitted size then sent else none

-- The loop of `run`: an argument is received by a goroutine that has none, and its result is sent.
abbrev pub take_from : {V : Type 0} → Batch V → ℕ → BatchWorker → Option (Batch V)
take_from {V} b k w = elim w.held as (λ _. Option (Batch V)) [
  | some _ ↦ none
  | none ↦ elim w.arg_ch as (λ _. Option (Batch V)) [
    | [] ↦ none
    | i ∷ rest ↦ some (change_worker b k (record { arg_ch = rest; held = some i }))
  ]
]

unfoldable pub receive_argument : {V : Type 0} → (worker : ℕ) → Batch V → Option (Batch V)
receive_argument {V} k b = elim (get_elem? b.workers k) as (λ _. Option (Batch V)) [
  | none ↦ none
  | some w ↦ take_from b k w
]

abbrev pub give_back :
    {V : Type 0} → (supply : ℕ → V) → Batch V → ℕ → BatchWorker → Option (Batch V)
give_back {V} supply b k w = elim w.held as (λ _. Option (Batch V)) [
  | none ↦ none
  | some i ↦
      if ltb (length b.res_ch) capacity
      then some (record b {
        workers = set b.workers k (record w { held = none });
        res_ch = b.res_ch ++ ((i, supply i) ∷ []);
      })
      else none
]

unfoldable pub send_result :
    {V : Type 0} → (supply : ℕ → V) → (worker : ℕ) → Batch V → Option (Batch V)
send_result {V} supply k b = elim (get_elem? b.workers k) as (λ _. Option (Batch V)) [
  | none ↦ none
  | some w ↦ give_back supply b k w
]

-- The loop of `Run` over the results, which ends when it has counted the whole batch.
unfoldable pub collect_result : {V : Type 0} → (size : ℕ) → Batch V → Option (Batch V)
collect_result {V} size b = elim b.res_ch as (λ _. Option (Batch V)) [
  | [] ↦ none
  | (i, v) ∷ rest ↦
      if b.counter == size
      then none
      else some
          (record b { res_ch = rest; result = set b.result i (some v); counter = b.counter + 1 })
]

unfoldable pub batch_step :
    {V : Type 0} → (supply : ℕ → V) → (size : ℕ) → Action → Batch V → Option (Batch V)
batch_step supply size submit b = submit_next size b
batch_step supply size collect b = collect_result size b
batch_step supply size (receive k) b = receive_argument k b
batch_step supply size (supply_one k) b = send_result supply k b

unfoldable pub run_steps :
    {V : Type 0} → (supply : ℕ → V) → (size : ℕ) → List Action → Batch V → Option (Batch V)
run_steps supply size [] b = some b
run_steps {V} supply size (a ∷ actions) b =
    elim (batch_step supply size a b) as (λ _. Option (Batch V)) [
      | none ↦ none
      | some b' ↦ run_steps supply size actions b'
    ]

-- Whether `Run` has returned: it looks at the counter after a result only.
abbrev pub has_returned : {V : Type 0} → (size : ℕ) → Batch V → Bool
has_returned size b = if size == 0 then false else b.counter == size
