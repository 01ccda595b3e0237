-- ===== src/Concurrent/Batch/Progress.antt =====
-- BatchRunner.Run of concurrent/conc.go comes to its end.
use mathlib.Core.Path.{subst}
use native.Mathlib.Nat.{mod-lt}
use developer_gateway.Prelude.{
  ℕ, zero, suc, ◌+◌, ◌-◌, ◌*◌, ◌%◌, ◌≤◌, ◌<◌, ◌≡◌, refl, sym, ap, ◌∙◌, true, false, Option, none,
  some, List, [], ◌∷◌, ◌++◌, length, get_elem?, set, replicate, ltb, ◌==◌, arith, length-set,
  length-append, length-replicate, All, All-replicate, Option-cases, Bool-cases, inl, inr, ◌⊎◌,
  get_elem?_within,
}
use developer_gateway.Concurrent.Batch.{
  BatchWorker, Batch, Action, submit, collect, receive, supply_one, start_batch, batch_step,
  run_steps, has_returned, concurrency_or_default, idle_worker, submit_next, receive_argument,
  send_result, collect_result, take_from, give_back, capacity,
}
use developer_gateway.Concurrent.Batch.Locations.{
  among, load, loads, total_of, total_of-set, is_set, how_many_all, in_results,
}
use developer_gateway.Concurrent.Batch.Steps.{
  Change, submits, receives, sends, collects, step_changes, List-cases,
}
use developer_gateway.Concurrent.Batch.Order.{IsKept, run-IsKept, start-IsKept}

abbrev has_one : Option ℕ → ℕ
has_one none = 0
has_one (some i) = 1

-- How many steps a goroutine's arguments are from being collected.
abbrev weight : BatchWorker → ℕ
weight w = 3 * length w.arg_ch + 2 * has_one w.held

-- How many steps a batch is from its end.
abbrev work : {V : Type 0} → (size : ℕ) → Batch V → ℕ
work size b = 4 * (size - b.submitted) + total_of weight b.workers + length b.res_ch

module _ {V : Type 0} (supply : ℕ → V) (size : ℕ) where
  Change-work : {b b' : Batch V} → Change supply size b b' → work size b ≡ work size b' + 1
  Change-work (submits b w lt at) =
      let more : BatchWorker = record w { arg_ch = w.arg_ch ++ (b.submitted ∷ []) } in
      let moved = total_of-set weight (b.submitted % length b.workers) w more b.workers at in
      omega (arith, moved, length-append w.arg_ch (b.submitted ∷ []))
  Change-work (receives b k i rest w at free args) =
      let busy : BatchWorker = record { arg_ch = rest; held = some i } in
      let moved = total_of-set weight k w busy b.workers at in
      let was : weight w ≡ 3 * (length rest + 1) = simp (free, args) (omega arith) in
      omega (arith, moved, was)
  Change-work (sends b k i w at held) =
      let free : BatchWorker = record w { held = none } in
      let moved = total_of-set weight k w free b.workers at in
      let was : weight w ≡ 3 * length w.arg_ch + 2 = simp held (omega arith) in
      omega (arith, moved, was, length-append b.res_ch ((i, supply i) ∷ []))
  Change-work (collects b i v rest at) =
      let was : length b.res_ch ≡ length rest + 1 = simp at (omega arith) in omega (arith, was)

  Change-length : {b b' : Batch V} → Change supply size b b' → length b'.workers ≡ length b.workers
  Change-length (submits b w lt at) = length-set b.workers _ _
  Change-length (receives b k i rest w at free args) = length-set b.workers _ _
  Change-length (sends b k i w at held) = length-set b.workers _ _
  Change-length (collects b i v rest at) = refl

-- A goroutine that can go on, or none that has anything to do.
abbrev IsIdle : BatchWorker → Type 0
IsIdle w = (w.arg_ch ≡ []) × (w.held ≡ none)

abbrev CanGo : BatchWorker → Type 0
CanGo w =
    ((i : ℕ) × (w.held ≡ some i))
    ⊎ ((i : ℕ) × (rest : List ℕ) × (w.held ≡ none) × (w.arg_ch ≡ i ∷ rest))

worker_cases : (w : BatchWorker) → IsIdle w ⊎ CanGo w
worker_cases w = elim (Option-cases w.held) [
  | inr (i, e) ↦ inr (inl (i, e))
  | inl e ↦ elim (List-cases w.arg_ch) [
    | inl f ↦ inl (f, e)
    | inr (i, rest, f) ↦ inr (inr (i, rest, e, f))
  ]
]

find_worker :
    (ws : List BatchWorker)
    → All IsIdle ws ⊎ ((k : ℕ) × (w : BatchWorker) × (get_elem? ws k ≡ some w) × CanGo w)
find_worker [] = inl tt
find_worker (w ∷ ws) = elim (worker_cases w) [
  | inr go ↦ inr (0, w, refl, go)
  | inl idle ↦ elim (find_worker ws) [
    | inl rest ↦ inl (idle, rest)
    | inr (k, v, at, go) ↦ inr (suc k, v, at, go)
  ]
]

All-get_elem? :
    (ws : List BatchWorker) (k : ℕ) (w : BatchWorker)
    → All IsIdle ws
    → get_elem? ws k ≡ some w
    → IsIdle w
All-get_elem? [] k w idle e = ground (arith, e)
All-get_elem? (v ∷ ws) zero w (first, idle) e = let same : v ≡ w = cc in subst IsIdle same first
All-get_elem? (v ∷ ws) (suc k) w (first, idle) e = All-get_elem? ws k w idle e

loads_nothing : (ws : List BatchWorker) (i : ℕ) → All IsIdle ws → loads i ws ≡ 0
unfolding total_of among
loads_nothing [] i idle = refl
loads_nothing (w ∷ ws) i ((args, held), idle) =
    let none_here : load i w ≡ 0 = simp (args, held) refl in
    omega (arith, none_here, loads_nothing ws i idle)

workers_idle : (n : ℕ) → All IsIdle (replicate n idle_worker)
workers_idle n = All-replicate IsIdle n idle_worker (refl, refl)

some_workers :
    (concurrency count : ℕ)
    → count ≡ length (replicate (concurrency_or_default concurrency) idle_worker)
    → 0 < count
some_workers concurrency count e =
    let size : count ≡ concurrency_or_default concurrency =
      e ∙ length-replicate (concurrency_or_default concurrency) idle_worker in
    ground (arith, size)

weights_idle : (n : ℕ) → total_of weight (replicate n idle_worker) ≡ 0
unfolding total_of
weights_idle zero = refl
weights_idle (suc n) = omega (arith, weights_idle n)

module _ {V : Type 0} (supply : ℕ → V) (size : ℕ) where
  -- Some goroutine of the batch can go on.
  abbrev pub GoesOn : Batch V → Type 0
  GoesOn b = (a : Action) × (b' : Batch V) × (batch_step supply size a b ≡ some b')

  collect_goes :
      (b : Batch V) (i : ℕ) (v : V) (rest : List (ℕ × V))
      → b.res_ch ≡ (i, v) ∷ rest
      → (b.counter == size) ≡ false
      → GoesOn b
  unfolding batch_step collect_result
  collect_goes b i v rest at more = (
    collect,
    record b { res_ch = rest; result = set b.result i (some v); counter = b.counter + 1 },
    simp (batch_step, collect_result, at, more) refl,
  )

  worker_goes :
      (b : Batch V) (k : ℕ) (w : BatchWorker)
      → b.res_ch ≡ []
      → get_elem? b.workers k ≡ some w
      → CanGo w
      → GoesOn b
  unfolding batch_step receive_argument send_result
  worker_goes b k w nothing at (inl (i, held)) = (
    supply_one k,
    record b {
      workers = set b.workers k (record w { held = none });
      res_ch = b.res_ch ++ ((i, supply i) ∷ []);
    },
    simp (batch_step, send_result, at, give_back, held, nothing) refl,
  )
  worker_goes b k w nothing at (inr (i, rest, free, args)) = (
    receive k,
    record b { workers = set b.workers k (record { arg_ch = rest; held = some i }) },
    simp (batch_step, receive_argument, at, take_from, free, args) refl,
  )

  submit_goes :
      (b : Batch V) → All IsIdle b.workers → 0 < length b.workers → b.submitted < size → GoesOn b
  unfolding batch_step submit_next
  submit_goes b idle some_worker lt =
      let k = b.submitted % length b.workers in
      let (w, at) = get_elem?_within b.workers k (mod-lt b.submitted some_worker) in
      let (args, held) = All-get_elem? b.workers k w idle at in
      let more : ltb b.submitted size ≡ true = ground arith in
      let room : ltb (length w.arg_ch) capacity ≡ true = simp args refl in
      (
        submit,
        record b {
          workers = set b.workers k (record w { arg_ch = w.arg_ch ++ (b.submitted ∷ []) });
          submitted = b.submitted + 1;
        },
        simp (batch_step, submit_next, more, at, room) refl,
      )

  -- If nothing is under way and all is submitted, all is collected.
  all_collected :
      (b : Batch V)
      → IsKept supply size b
      → b.res_ch ≡ []
      → All IsIdle b.workers
      → size ≤ b.submitted
      → b.counter ≡ size
  unfolding in_results
  all_collected b inv nothing idle all =
      let set = λ (i : ℕ) (h : i < length b.result).
        let here = inv.located i in
        let empty : in_results i b.res_ch ≡ 0 = ap (in_results i) nothing in
        let free = loads_nothing b.workers i idle in
        let sized = inv.sized in
        let one : is_set i b.result ≡ 1 = ground (arith, here, empty, free, sized, h) in one in
      inv.counted ∙ how_many_all b.result set ∙ inv.sized

  kept_goes :
      (b : Batch V)
      → IsKept supply size b
      → 0 < length b.workers
      → (b.counter == size) ≡ false
      → GoesOn b
  kept_goes b inv some_worker more = elim (List-cases b.res_ch) [
    | inr ((i, v), rest, at) ↦ collect_goes b i v rest at more
    | inl nothing ↦ elim (find_worker b.workers) [
      | inr (k, w, at, go) ↦ worker_goes b k w nothing at go
      | inl idle ↦ elim (Bool-cases (ltb b.submitted size)) [
        | inl lt ↦ submit_goes b idle some_worker (ground (arith, lt))
        | inr le ↦
            let all = all_collected b inv nothing idle (ground (arith, le)) in
            let bad : ⊥ = ground (arith, all, more) in absurd bad
      ]
    ]
  ]

  run_works :
      (actions : List Action) (b : Batch V) {b' : Batch V}
      → run_steps supply size actions b ≡ some b'
      → (length actions + work size b' ≡ work size b) × (length b'.workers ≡ length b.workers)
  unfolding run_steps
  run_works [] b {b'} e =
      let same : b ≡ b' = cc in
      (ap (λ c. 0 + work size c) (sym same) ∙ omega arith, ap (λ c. length c.workers) (sym same))
  run_works (a ∷ actions) b {b'} e = elim (Option-cases (batch_step supply size a b)) [
    | inl f ↦
        let runs : run_steps supply size (a ∷ actions) b ≡ none = simp (run_steps, f) refl in
        let bad : ⊥ = cc in absurd bad
    | inr (next, f) ↦
        let runs : run_steps supply size (a ∷ actions) b ≡ run_steps supply size actions next =
          simp (run_steps, f) refl in
        let (rest, kept) = run_works actions next (sym runs ∙ e) in
        let change = step_changes supply size a b f in
        (
          omega (arith, rest, Change-work supply size change),
          kept ∙ Change-length supply size change,
        )
  ]

  start_work : (concurrency : ℕ) → work {V = V} size (start_batch concurrency size) ≡ 4 * size
  unfolding start_batch
  start_work concurrency =
      let free = weights_idle (concurrency_or_default concurrency) in omega (arith, free)

  -- In any interleaving, the run of a batch that is not empty makes at most four steps for each supplier,
  -- and until it has returned, some goroutine can make one.
  pub batch_completes :
      (concurrency : ℕ) (actions : List Action) (b : Batch V)
      → 0 < size
      → run_steps supply size actions (start_batch concurrency size) ≡ some b
      → (length actions ≤ 4 * size) × ((has_returned size b ≡ true) ⊎ GoesOn b)
  unfolding start_batch
  batch_completes concurrency actions b full runs =
      let (worked, kept) = run_works actions (start_batch concurrency size) runs in
      let inv =
        run-IsKept supply size actions (start_batch concurrency size)
          (start-IsKept supply size concurrency) runs in
      let some_worker : 0 < length b.workers = some_workers concurrency (length b.workers) kept in
      let steps : length actions ≤ 4 * size = omega (arith, worked, start_work concurrency) in
      elim (Bool-cases (b.counter == size)) [
        | inl e ↦ (steps, inl (ground (arith, e)))
        | inr e ↦ (steps, inr (kept_goes b inv some_worker e))
      ]

module _ {V : Type 0} (supply : ℕ → V) where
  -- The run of an empty batch never returns: there is no step that any goroutine can make.
  empty_batch_hangs :
      (concurrency : ℕ) (a : Action)
      → (batch_step supply 0 a (start_batch concurrency 0) ≡ none)
        × (has_returned 0 (start_batch {V = V} concurrency 0) ≡ false)
  unfolding batch_step start_batch submit_next collect_result receive_argument send_result
  empty_batch_hangs concurrency submit = (refl, refl)
  empty_batch_hangs concurrency collect = (refl, refl)
  empty_batch_hangs concurrency (receive k) =
      elim (Option-cases
        (get_elem? (replicate (concurrency_or_default concurrency) idle_worker) k)) [
          | inl e ↦ (simp (batch_step, start_batch, receive_argument, e) refl, refl)
          | inr (w, e) ↦
              let (args, held) =
                All-get_elem? _ k w (workers_idle (concurrency_or_default concurrency)) e in
              (
                simp (batch_step, start_batch, receive_argument, e, take_from, held, args) refl,
                refl,
              )
        ]
  empty_batch_hangs concurrency (supply_one k) =
      elim (Option-cases
        (get_elem? (replicate (concurrency_or_default concurrency) idle_worker) k)) [
          | inl e ↦ (simp (batch_step, start_batch, send_result, e) refl, refl)
          | inr (w, e) ↦
              let (args, held) =
                All-get_elem? _ k w (workers_idle (concurrency_or_default concurrency)) e in
              (simp (batch_step, start_batch, send_result, e, give_back, held) refl, refl)
        ]
