-- ===== src/Concurrent/Retry/Outcomes.antt =====
-- How `RetryWithConfig` ends: which calls of the supplier it makes, and what it returns.
use mathlib.Core.List.{append_assoc, append-nil}
use developer_gateway.Prelude.{
  ℕ, ◌+◌, ◌≤◌, ◌<◌, ◌≡◌, ◌≢◌, refl, ◌⊎◌, sym, ap, max, inl, inr, Bool-cases, ◌∙◌, true, false, List,
  [], ◌∷◌, ◌++◌, map, length, arith,
}
use developer_gateway.Concurrent.Retry.{
  RetryConfig, success, failure, cannot_recover, Event, done, fired, Result, value, canceled,
  unrecoverable, max_attempts_reached, waiting, Loop, exhausted, start, back_off, retry_loop,
  retry_with_config,
}

abbrev pub failures : {V E : Type 0} → List E → List (Event V E)
failures es = map (λ e. fired (failure e)) es

-- The result of the first event that is no plain failure.
abbrev verdict : {V E : Type 0} → Event V E → Result V E
verdict done = canceled
verdict (fired (success v)) = value v
verdict (fired (cannot_recover e)) = unrecoverable e
verdict (fired (failure e)) = waiting

-- Attempts are left after `n` failures.
abbrev pub IsLeft : RetryConfig → ℕ → Type 0
IsLeft c n = (c.unlimited_attempts ≡ true) ⊎ (n < c.attempts)

pub exhausted-IsLeft : (c : RetryConfig) (k n : ℕ) → IsLeft c k → n ≤ k → exhausted c n ≡ false
unfolding exhausted
exhausted-IsLeft c k n h p = ground arith

lt_of_left :
    (c : RetryConfig) (n : ℕ)
    → exhausted c n ≡ false
    → c.unlimited_attempts ≡ false
    → n < c.attempts
unfolding exhausted
lt_of_left c n h u = ground arith

attempts-back_off :
    {E : Type 0} (c : RetryConfig) (spread : ℕ → ℕ → ℕ) (s : Loop E) (e : E)
    → (back_off c spread s e).attempts ≡ s.attempts + 1
unfolding back_off
attempts-back_off c spread s e = refl

settle :
    {V E : Type 0} (c : RetryConfig) (spread : ℕ → ℕ → ℕ) (d : Event V E) (rest : List (Event V E))
    (t : Loop E)
    → verdict d ≢ waiting
    → (retry_loop c spread t (d ∷ rest)).0 ≡ verdict d
unfolding retry_loop
settle c spread done rest t h = refl
settle c spread (fired (success v)) rest t h = refl
settle c spread (fired (cannot_recover e)) rest t h = refl
settle c spread (fired (failure e)) rest t h = absurd (h refl)

module _ {V E : Type 0} (c : RetryConfig) (spread : ℕ → ℕ → ℕ) where
  -- While attempts are left, failures are noted and the loop goes on.
  retry_loop-failures :
      (es : List E) (rest : List (Event V E)) (s : Loop E)
      → ((n : ℕ) → s.attempts < n → n ≤ s.attempts + length es → exhausted c n ≡ false)
      → (t : Loop E) × (retry_loop c spread s (failures es ++ rest) ≡ retry_loop c spread t rest)
        × (t.errs ≡ s.errs ++ es)
        × (t.attempts ≡ s.attempts + length es)
  unfolding retry_loop back_off
  retry_loop-failures [] rest s h = (s, refl, sym (append-nil s.errs), omega arith)
  retry_loop-failures (e ∷ es) rest s h =
      let (t, same, errs, attempts) =
        retry_loop-failures es rest (back_off c spread s e)
          (λ n l k. h n (omega arith) (omega arith)) in
      (
        t,
        rw (h (s.attempts + 1) (omega arith) (omega arith)) same,
        errs ∙ append_assoc s.errs (e ∷ []) es,
        omega arith,
      )

  -- If attempts are left after some plain failures, the next event that is no plain failure settles
  -- the call: a value is returned, a context that is done cancels it, and an error that cannot be
  -- recovered from is returned as it is.
  retry_settles :
      (es : List E) (d : Event V E) (rest : List (Event V E))
      → IsLeft c (length es)
      → verdict d ≢ waiting
      → (retry_with_config c spread (failures es ++ d ∷ rest)).0 ≡ verdict d
  unfolding retry_with_config
  retry_settles es d rest left settled =
      let (t, same, errs, attempts) =
        retry_loop-failures es (d ∷ rest) (start c)
          (λ n l k. exhausted-IsLeft c (length es) n left (omega arith)) in
      rw same (settle c spread d rest t settled)

  retry_loop_last :
      (s : Loop E) (e : E) (rest : List (Event V E))
      → c.unlimited_attempts ≡ false
      → c.attempts ≤ s.attempts + 1
      → (retry_loop c spread s (fired (failure e) ∷ rest)).0
        ≡ max_attempts_reached (s.errs ++ (e ∷ []))
  unfolding retry_loop exhausted
  retry_loop_last s e rest u h = ground arith

  -- With limited attempts, the failure of the last attempt makes the call return the errors of all
  -- attempts, in order, whatever events follow; with zero attempts the first failure is the last one.
  retry_exhausts :
      (es : List E) (e : E) (rest : List (Event V E))
      → c.unlimited_attempts ≡ false
      → length es + 1 ≡ max 1 c.attempts
      → (retry_with_config c spread (failures es ++ fired (failure e) ∷ rest)).0
        ≡ max_attempts_reached (es ++ (e ∷ []))
  unfolding retry_with_config
  retry_exhausts es e rest limited all =
      let (t, same, errs, attempts) =
        retry_loop-failures es (fired (failure e) ∷ rest) (start c)
          (λ n l k. exhausted-IsLeft c (length es) n (inr (omega arith)) (omega arith)) in
      rw same (
        retry_loop_last t e rest limited (omega arith)
        ∙ ap (λ l. max_attempts_reached (l ++ (e ∷ []))) errs)

  retry_loop_ends :
      (evs : List (Event V E)) (s : Loop E)
      → c.unlimited_attempts ≡ false
      → 0 < length evs
      → c.attempts ≤ s.attempts + length evs
      → (retry_loop c spread s evs).0 ≢ waiting
  unfolding retry_loop
  retry_loop_ends [] s u p q = absurd (omega arith)
  retry_loop_ends (done ∷ evs) s u p q = λ h. cc
  retry_loop_ends (fired (success v) ∷ evs) s u p q = λ h. cc
  retry_loop_ends (fired (cannot_recover e) ∷ evs) s u p q = λ h. cc
  retry_loop_ends (fired (failure e) ∷ evs) s u p q =
      elim (Bool-cases (exhausted c (s.attempts + 1))) [
        | inl last ↦ rw last (λ h. cc)
        | inr more ↦
            let left = lt_of_left c (s.attempts + 1) more u in
            rw more (
              retry_loop_ends evs (back_off c spread s e) u (omega arith)
                (omega (arith, attempts-back_off c spread s e)))
      ]

  -- A call with limited attempts has returned after as many events as there are attempts, and at
  -- least one.
  pub retry_ends :
      (evs : List (Event V E))
      → c.unlimited_attempts ≡ false
      → max 1 c.attempts ≤ length evs
      → (retry_with_config c spread evs).0 ≢ waiting
  unfolding retry_with_config
  retry_ends evs limited enough = retry_loop_ends evs _ limited (omega arith) (omega arith)
