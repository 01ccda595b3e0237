-- ===== src/Concurrent/Batch/Steps.antt =====
-- A step of BatchRunner, told apart by what it changes.
use mathlib.Core.Path.{subst}
use developer_gateway.Prelude.{
  ℕ, ◌+◌, ◌%◌, ◌<◌, ◌≡◌, refl, Option, none, some, List, [], ◌∷◌, ◌++◌, length, get_elem?, set, ltb,
  ◌==◌, arith, Bool-cases, Option-cases, inl, inr, ◌⊎◌,
}
use developer_gateway.Concurrent.Batch.{
  BatchWorker, Batch, Action, submit, collect, receive, supply_one, submit_next, receive_argument,
  send_result, collect_result, batch_step, capacity, take_from, give_back,
}

pub List-cases {ℓ} :
    {A : Type ℓ} (l : List A) → (l ≡ []) ⊎ ((a : A) × (rest : List A) × (l ≡ a ∷ rest))
List-cases [] = inl refl
List-cases (a ∷ rest) = inr (a, rest, refl)

module _ {V : Type 0} (supply : ℕ → V) (size : ℕ) where
  pub data Change : Batch V → Batch V → Type 0 where
    submits :
        (b : Batch V) (w : BatchWorker)
        → b.submitted < size
        → get_elem? b.workers (b.submitted % length b.workers) ≡ some w
        → Change b (record b {
          workers =
              set b.workers
                (b.submitted % length b.workers)
                (record w { arg_ch = w.arg_ch ++ (b.submitted ∷ []) });
          submitted = b.submitted + 1;
        })
    receives :
        (b : Batch V) (k i : ℕ) (rest : List ℕ) (w : BatchWorker)
        → get_elem? b.workers k ≡ some w
        → w.held ≡ none
        → w.arg_ch ≡ i ∷ rest
        → Change b
            (record b { workers = set b.workers k (record { arg_ch = rest; held = some i }) })
    sends :
        (b : Batch V) (k i : ℕ) (w : BatchWorker)
        → get_elem? b.workers k ≡ some w
        → w.held ≡ some i
        → Change b (record b {
          workers = set b.workers k (record w { held = none });
          res_ch = b.res_ch ++ ((i, supply i) ∷ []);
        })
    collects :
        (b : Batch V) (i : ℕ) (v : V) (rest : List (ℕ × V))
        → b.res_ch ≡ (i, v) ∷ rest
        → Change b
            (record b { res_ch = rest; result = set b.result i (some v); counter = b.counter + 1 })

  by_result :
      {b x b' : Batch V} (o : Option (Batch V))
      → Change b x
      → o ≡ some x
      → o ≡ some b'
      → Change b b'
  by_result {b} {x} {b'} o c runs e = let arrived : x ≡ b' = cc in subst (Change b) arrived c

  stuck : {b b' : Batch V} (o : Option (Batch V)) → o ≡ none → o ≡ some b' → Change b b'
  stuck o runs e = let bad : ⊥ = cc in absurd bad

  submit_changes : (b : Batch V) {b' : Batch V} → submit_next size b ≡ some b' → Change b b'
  unfolding submit_next
  submit_changes b e = elim (Bool-cases (ltb b.submitted size)) [
    | inr f ↦ stuck (submit_next size b) (simp (submit_next, f) refl) e
    | inl f ↦ elim (Option-cases (get_elem? b.workers (b.submitted % length b.workers))) [
      | inl g ↦ stuck (submit_next size b) (simp (submit_next, f, g) refl) e
      | inr (w, g) ↦ elim (Bool-cases (ltb (length w.arg_ch) capacity)) [
        | inr h ↦ stuck (submit_next size b) (simp (submit_next, f, g, h) refl) e
        | inl h ↦
            by_result (submit_next size b) (submits b w (ground (arith, f)) g)
              (simp (submit_next, f, g, h) refl) e
      ]
    ]
  ]

  receive_changes :
      (k : ℕ) (b : Batch V) {b' : Batch V} → receive_argument k b ≡ some b' → Change b b'
  unfolding receive_argument
  receive_changes k b e = elim (Option-cases (get_elem? b.workers k)) [
    | inl f ↦ stuck (receive_argument k b) (simp (receive_argument, f) refl) e
    | inr (w, f) ↦ elim (Option-cases w.held) [
      | inr (i, g) ↦ stuck (receive_argument k b) (simp (receive_argument, f, take_from, g) refl) e
      | inl g ↦ elim (List-cases w.arg_ch) [
        | inl h ↦ stuck (receive_argument k b) (simp (receive_argument, f, take_from, g, h) refl) e
        | inr (i, rest, h) ↦
            by_result (receive_argument k b) (receives b k i rest w f g h)
              (simp (receive_argument, f, take_from, g, h) refl) e
      ]
    ]
  ]

  send_changes :
      (k : ℕ) (b : Batch V) {b' : Batch V} → send_result supply k b ≡ some b' → Change b b'
  unfolding send_result
  send_changes k b e = elim (Option-cases (get_elem? b.workers k)) [
    | inl f ↦ stuck (send_result supply k b) (simp (send_result, f) refl) e
    | inr (w, f) ↦ elim (Option-cases w.held) [
      | inl g ↦ stuck (send_result supply k b) (simp (send_result, f, give_back, g) refl) e
      | inr (i, g) ↦ elim (Bool-cases (ltb (length b.res_ch) capacity)) [
        | inr h ↦ stuck (send_result supply k b) (simp (send_result, f, give_back, g, h) refl) e
        | inl h ↦
            by_result (send_result supply k b) (sends b k i w f g)
              (simp (send_result, f, give_back, g, h) refl) e
      ]
    ]
  ]

  collect_changes : (b : Batch V) {b' : Batch V} → collect_result size b ≡ some b' → Change b b'
  unfolding collect_result
  collect_changes b e = elim (List-cases b.res_ch) [
    | inl f ↦ stuck (collect_result size b) (simp (collect_result, f) refl) e
    | inr ((i, v), rest, f) ↦ elim (Bool-cases (b.counter == size)) [
      | inl g ↦ stuck (collect_result size b) (simp (collect_result, f, g) refl) e
      | inr g ↦
          by_result (collect_result size b) (collects b i v rest f)
            (simp (collect_result, f, g) refl) e
    ]
  ]

  pub step_changes :
      (a : Action) (b : Batch V) {b' : Batch V} → batch_step supply size a b ≡ some b' → Change b b'
  unfolding batch_step
  step_changes submit b e = submit_changes b e
  step_changes collect b e = collect_changes b e
  step_changes (receive k) b e = receive_changes k b e
  step_changes (supply_one k) b e = send_changes k b e
