-- ===== src/Concurrent/Retry/Supply.antt =====
-- `RetryWithConfig` of concurrent/conc.go with a supplier that has a state of its own, while the
-- context is not done: each event is the next call of the supplier.
use mathlib.Core.Path.{subst}
use developer_gateway.Prelude.{
  ℕ, zero, suc, ◌+◌, ◌≡◌, ◌≢◌, refl, sym, ap, ◌∙◌, max, false, List, [], ◌∷◌, ◌++◌, length, arith,
  if◌then◌else◌, Bool-cases, inl, inr, ◌⊎◌,
}
use developer_gateway.Concurrent.Retry.{
  RetryConfig, Attempt, success, failure, cannot_recover, Event, fired, Result, value,
  unrecoverable, max_attempts_reached, waiting, canceled, Loop, exhausted, start, back_off,
  retry_loop, retry_with_config,
}
use developer_gateway.Concurrent.Retry.Outcomes.{retry_ends}

pub Attempt-cases :
    {V E : Type 0} (a : Attempt V E)
    → ((v : V) × (a ≡ success v)) ⊎ ((e : E) × (a ≡ cannot_recover e)) ⊎ ((e : E) × (a ≡ failure e))
Attempt-cases (success v) = inl (v, refl)
Attempt-cases (cannot_recover e) = inr (inl (e, refl))
Attempt-cases (failure e) = inr (inr (e, refl))

-- The result is that of a call: the last one, if the attempts are over.
abbrev pub Came : {V E : Type 0} → (Attempt V E → Type 0) → Result V E → Type 0
Came P (value v) = P (success v)
Came P (unrecoverable e) = P (cannot_recover e)
Came {E = E} P (max_attempts_reached es) =
    (earlier : List E) × (e : E) × (es ≡ earlier ++ (e ∷ [])) × P (failure e)
Came P canceled = ⊥
Came P waiting = Unit

module _ {S V E : Type 0} (c : RetryConfig) (spread : ℕ → ℕ → ℕ)
    (supply : S → Attempt V E × S) where
  -- The loop with at most `fuel` calls of the supplier.
  unfoldable pub supply_loop : (fuel : ℕ) → S → Loop E → Result V E × S
  supply_loop zero s l = (waiting, s)
  supply_loop (suc fuel) s l =
      let (attempt, s') = supply s in
      elim attempt [
        | success v ↦ (value v, s')
        | cannot_recover e ↦ (unrecoverable e, s')
        | failure e ↦
            let rest = supply_loop fuel s' (back_off c spread l e) in
            if exhausted c (l.attempts + 1)
            then (max_attempts_reached (l.errs ++ (e ∷ [])), s')
            else rest
      ]

  -- With limited attempts, so many calls are enough.
  unfoldable pub retry_supply : S → Result V E × S
  retry_supply s = supply_loop (max 1 c.attempts) s (start c)

  -- What the calls give, one after another.
  unfoldable events_of : (fuel : ℕ) → S → List (Event V E)
  events_of zero s = []
  events_of (suc fuel) s = fired (supply s).0 ∷ events_of fuel (supply s).1

  length-events_of : (fuel : ℕ) (s : S) → length (events_of fuel s) ≡ fuel
  unfolding events_of
  length-events_of zero s = refl
  length-events_of (suc fuel) s = ap suc (length-events_of fuel (supply s).1)

  supply_loop-retry_loop :
      (fuel : ℕ) (s : S) (l : Loop E)
      → (supply_loop fuel s l).0 ≡ (retry_loop c spread l (events_of fuel s)).0
  unfolding supply_loop events_of retry_loop
  supply_loop-retry_loop zero s l = refl
  supply_loop-retry_loop (suc fuel) s l = elim (Attempt-cases (supply s).0) [
    | inl (v, e) ↦ rw (supply_loop, events_of, e) refl
    | inr (inl (x, e)) ↦ rw (supply_loop, events_of, e) refl
    | inr (inr (x, e)) ↦
        ground (arith, e, supply_loop-retry_loop fuel (supply s).1 (back_off c spread l x))
  ]

  -- The two forms of the loop return the same.
  retry_supply-retry_with_config :
      (s : S) → (retry_supply s).0 ≡ (retry_with_config c spread (events_of (max 1 c.attempts) s)).0
  unfolding retry_supply retry_with_config
  retry_supply-retry_with_config s = supply_loop-retry_loop (max 1 c.attempts) s (start c)

  pub retry_supply_ends : (s : S) → c.unlimited_attempts ≡ false → (retry_supply s).0 ≢ waiting
  retry_supply_ends s limited h =
      retry_ends c spread (events_of (max 1 c.attempts) s) limited
        (omega (arith, length-events_of (max 1 c.attempts) s))
        (sym (retry_supply-retry_with_config s) ∙ h)

  -- What every call of the supplier keeps, the loop keeps.
  pub supply_loop_keeps {ℓ} :
      {X : Type ℓ} (f : S → X)
      → ((s : S) → f (supply s).1 ≡ f s)
      → (fuel : ℕ) (s : S) (l : Loop E) → f (supply_loop fuel s l).1 ≡ f s
  unfolding supply_loop
  supply_loop_keeps f keeps zero s l = refl
  supply_loop_keeps f keeps (suc fuel) s l = elim (Attempt-cases (supply s).0) [
    | inl (v, e) ↦ rw (supply_loop, e) (keeps s)
    | inr (inl (x, e)) ↦ rw (supply_loop, e) (keeps s)
    | inr (inr (x, e)) ↦ elim (Bool-cases (exhausted c (l.attempts + 1))) [
      | inl b ↦ rw (supply_loop, e, b) (keeps s)
      | inr b ↦
          rw (supply_loop, e, b)
            (supply_loop_keeps f keeps fuel (supply s).1 (back_off c spread l x) ∙ keeps s)
    ]
  ]

  -- What holds of a state and of what the supplier gives in it.
  pub supply_loop_holds {ℓ} :
      (I : S → Type ℓ) (P : Attempt V E → Type 0)
      → ((s : S) → I s → I (supply s).1 × P (supply s).0)
      → (fuel : ℕ) (s : S) (l : Loop E) → I s
      → I (supply_loop fuel s l).1 × Came P (supply_loop fuel s l).0
  unfolding supply_loop
  supply_loop_holds I P holds zero s l i = (i, tt)
  supply_loop_holds I P holds (suc fuel) s l i =
      let (i', p) = holds s i in
      elim (Attempt-cases (supply s).0) [
        | inl (v, e) ↦ rw (supply_loop, e) (i', subst P e p)
        | inr (inl (x, e)) ↦ rw (supply_loop, e) (i', subst P e p)
        | inr (inr (x, e)) ↦ elim (Bool-cases (exhausted c (l.attempts + 1))) [
          | inl b ↦ rw (supply_loop, e, b) (i', (l.errs, x, refl, subst P e p))
          | inr b ↦
              rw (supply_loop, e, b)
                (supply_loop_holds I P holds fuel (supply s).1 (back_off c spread l x) i')
        ]
      ]
