-- ===== src/Concurrent/Batch/Order.antt =====
-- What BatchRunner.Run of concurrent/conc.go returns.
use mathlib.Core.Path.{subst}
use native.Mathlib.Decide.{ℕ_discrete}
use developer_gateway.Prelude.{
  ℕ, ◌+◌, ◌%◌, ◌≤◌, ◌<◌, ◌≡◌, refl, sym, ap, ◌∙◌, true, Option, none, some, List, [], ◌∷◌, ◌++◌,
  length, get_elem?, set, replicate, ltb, if◌then◌else◌, arith, length-set, length-replicate,
  get_elem?-set_self, get_elem?-set_ne, All, All-append, Option-cases, inl, inr,
}
use developer_gateway.Concurrent.Batch.{
  BatchWorker, Batch, Action, start_batch, batch_step, run_steps, has_returned,
  concurrency_or_default, idle_worker,
}
use developer_gateway.Concurrent.Batch.Locations.{
  one_at, load, loads, total_of-set, among-append, load_taken, load_held, in_results,
  in_results-append, is_set, how_many, is_set-set, how_many-set, loads-idle, is_set-empty,
  how_many-empty, get_elem?-empty, in_order, all_in_order,
}
use developer_gateway.Concurrent.Batch.Steps.{
  Change, submits, receives, sends, collects, step_changes,
}

module _ {V : Type 0} (supply : ℕ → V) (size : ℕ) where
  -- Each argument that is submitted is at one place, and the results are those of the suppliers.
  pub record IsKept (b : Batch V) : Type 0 where
    pub located :
        (i : ℕ)
        → loads i b.workers + in_results i b.res_ch + is_set i b.result
          ≡ (if ltb i b.submitted then 1 else 0)
    pub supplied : All (λ r. r.1 ≡ supply r.0) b.res_ch
    pub collected : (i : ℕ) (v : V) → get_elem? b.result i ≡ some (some v) → v ≡ supply i
    pub counted : b.counter ≡ how_many b.result
    pub sized : length b.result ≡ size
    pub bounded : b.submitted ≤ size

  submit_located :
      (b : Batch V) (w : BatchWorker)
      → get_elem? b.workers (b.submitted % length b.workers) ≡ some w
      → IsKept b
      → (i : ℕ)
      → loads i (
            set b.workers
              (b.submitted % length b.workers)
              (record w { arg_ch = w.arg_ch ++ (b.submitted ∷ []) }))
          + in_results i b.res_ch
          + is_set i b.result
        ≡ (if ltb i (b.submitted + 1) then 1 else 0)
  submit_located b w at inv i =
      let more : BatchWorker = record w { arg_ch = w.arg_ch ++ (b.submitted ∷ []) } in
      let moved = total_of-set (load i) (b.submitted % length b.workers) w more b.workers at in
      ground (arith, moved, among-append i b.submitted w.arg_ch, inv.located i)

  receive_located :
      (b : Batch V) (k i : ℕ) (rest : List ℕ) (w : BatchWorker)
      → get_elem? b.workers k ≡ some w
      → w.held ≡ none
      → w.arg_ch ≡ i ∷ rest
      → IsKept b
      → (j : ℕ)
      → loads j (set b.workers k (record { arg_ch = rest; held = some i }))
          + in_results j b.res_ch
          + is_set j b.result
        ≡ (if ltb j b.submitted then 1 else 0)
  receive_located b k i rest w at free args inv j =
      let busy : BatchWorker = record { arg_ch = rest; held = some i } in
      let moved = total_of-set (load j) k w busy b.workers at in
      let had = load_taken j i rest w free args in
      let here = inv.located j in omega (arith, moved, had) ∙ here

  send_located :
      (b : Batch V) (k i : ℕ) (w : BatchWorker)
      → get_elem? b.workers k ≡ some w
      → w.held ≡ some i
      → IsKept b
      → (j : ℕ)
      → loads j (set b.workers k (record w { held = none }))
          + in_results j (b.res_ch ++ ((i, supply i) ∷ []))
          + is_set j b.result
        ≡ (if ltb j b.submitted then 1 else 0)
  send_located b k i w at held inv j =
      let free : BatchWorker = record w { held = none } in
      let moved = total_of-set (load j) k w free b.workers at in
      let sent = in_results-append j i (supply i) b.res_ch in
      let had = load_held j i w held in
      let here = inv.located j in omega (arith, moved, had, sent) ∙ here

  module _ (b : Batch V) (i : ℕ) (v : V) (rest : List (ℕ × V)) (at : b.res_ch ≡ (i, v) ∷ rest)
      (inv : IsKept b) where
    first : (j : ℕ) → in_results j b.res_ch ≡ one_at j i + in_results j rest
    unfolding in_results
    first j = ap (in_results j) at

    not_yet : (i < length b.result) × (is_set i b.result ≡ 0)
    not_yet =
        let here = inv.located i in
        let head = first i in
        let size_of = inv.sized in
        let bound = inv.bounded in
        (ground (arith, here, head, size_of, bound), ground (arith, here, head))

    right : All (λ r. r.1 ≡ supply r.0) ((i, v) ∷ rest)
    right = subst (All (λ r. r.1 ≡ supply r.0)) at inv.supplied

    found : (j : ℕ) (u : V) → get_elem? (set b.result i (some v)) j ≡ some (some u) → u ≡ supply j
    found j u e = elim (ℕ_discrete i j) [
      | yes same ↦
          let own = get_elem?-set_self b.result i (some v) not_yet.0 in
          let at_j : get_elem? (set b.result i (some v)) j ≡ some (some v) =
            subst (λ k. get_elem? (set b.result i (some v)) k ≡ some (some v)) same own in
          let met : v ≡ u = cc in sym met ∙ right.0 ∙ ap supply same
      | no other ↦ inv.collected j u (sym (get_elem?-set_ne b.result (some v) other) ∙ e)
    ]

    collect_located :
        (j : ℕ)
        → loads j b.workers + in_results j rest + is_set j (set b.result i (some v))
          ≡ (if ltb j b.submitted then 1 else 0)
    collect_located j =
        let set_now = is_set-set j i v b.result not_yet.0 not_yet.1 in
        let head = first j in let here = inv.located j in omega (arith, set_now, head) ∙ here

    collect-IsKept :
        IsKept
          (record b { res_ch = rest; result = set b.result i (some v); counter = b.counter + 1 })
    collect-IsKept = record {
      located = collect_located;
      supplied = right.1;
      collected = found;
      counted = ap (λ n. n + 1) inv.counted ∙ sym (how_many-set i v b.result not_yet.0 not_yet.1);
      sized = length-set b.result i (some v) ∙ inv.sized;
      bounded = inv.bounded;
    }

  Change-IsKept : {b b' : Batch V} → Change supply size b b' → IsKept b → IsKept b'
  Change-IsKept (submits b w lt at) inv = record {
    located = λ i. submit_located b w at inv i;
    supplied = inv.supplied;
    collected = inv.collected;
    counted = inv.counted;
    sized = inv.sized;
    bounded = omega arith;
  }
  Change-IsKept (receives b k i rest w at free args) inv = record {
    located = λ j. receive_located b k i rest w at free args inv j;
    supplied = inv.supplied;
    collected = inv.collected;
    counted = inv.counted;
    sized = inv.sized;
    bounded = inv.bounded;
  }
  Change-IsKept (sends b k i w at held) inv = record {
    located = λ j. send_located b k i w at held inv j;
    supplied =
        All-append (λ r. r.1 ≡ supply r.0) b.res_ch ((i, supply i) ∷ []) inv.supplied (refl, tt);
    collected = inv.collected;
    counted = inv.counted;
    sized = inv.sized;
    bounded = inv.bounded;
  }
  Change-IsKept (collects b i v rest at) inv = collect-IsKept b i v rest at inv

  start_located :
      (concurrency i : ℕ)
      → loads i (replicate (concurrency_or_default concurrency) idle_worker)
          + in_results {V = V} i []
          + is_set i (replicate {A = Option V} size none)
        ≡ (if ltb i 0 then 1 else 0)
  unfolding in_results
  start_located concurrency i =
      let none_held = loads-idle i (concurrency_or_default concurrency) in
      let none_set = is_set-empty V i size in ground (arith, none_held, none_set)

  pub start-IsKept : (concurrency : ℕ) → IsKept (start_batch concurrency size)
  unfolding start_batch
  start-IsKept concurrency = record {
    located = λ i. start_located concurrency i;
    supplied = tt;
    collected = λ i v e. absurd (get_elem?-empty V i size v e);
    counted = sym (how_many-empty V size);
    sized = length-replicate size none;
    bounded = omega arith;
  }

  pub run-IsKept :
      (actions : List Action) (b : Batch V) {b' : Batch V}
      → IsKept b
      → run_steps supply size actions b ≡ some b'
      → IsKept b'
  unfolding run_steps
  run-IsKept [] b {b'} inv e = let same : b ≡ b' = cc in subst IsKept same inv
  run-IsKept (a ∷ actions) b {b'} inv e = elim (Option-cases (batch_step supply size a b)) [
    | inl f ↦
        let runs : run_steps supply size (a ∷ actions) b ≡ none = simp (run_steps, f) refl in
        let bad : ⊥ = cc in absurd bad
    | inr (next, f) ↦
        let runs : run_steps supply size (a ∷ actions) b ≡ run_steps supply size actions next =
          simp (run_steps, f) refl in
        run-IsKept actions next (Change-IsKept (step_changes supply size a b f) inv) (sym runs ∙ e)
  ]

  -- Whatever the order in which the goroutines go on, if the run of a batch returns, then it returns the
  -- results of the suppliers in the order in which they were given.
  pub batch_returns_in_order :
      (concurrency : ℕ) (actions : List Action) (b : Batch V)
      → run_steps supply size actions (start_batch concurrency size) ≡ some b
      → has_returned size b ≡ true
      → b.result ≡ in_order supply 0 size
  batch_returns_in_order concurrency actions b runs returned =
      let inv = run-IsKept actions (start_batch concurrency size) (start-IsKept concurrency) runs in
      let all : b.counter ≡ size = ground (arith, returned) in
      let full : how_many b.result ≡ length b.result = sym inv.counted ∙ all ∙ sym inv.sized in
      let right = λ (i : ℕ) (v : V) (e : get_elem? b.result i ≡ some (some v)).
        inv.collected i v e ∙ ap supply (omega arith) in
      all_in_order supply 0 b.result right full ∙ ap (in_order supply 0) inv.sized
