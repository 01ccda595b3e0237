-- ===== src/Concurrent/Retry.antt =====
-- `RetryWithConfig` of concurrent/conc.go. What the loop waits for comes as a list of events: the
-- context is done, or the timer fires and the supplier is called. A duration is an int64 in
-- nanoseconds, kept as its 64-bit pattern. `spread` stands for `int64(multiplier*float64(timeout))`,
-- which draws on a random number, and takes the attempt's number and the timeout.
pub mod Outcomes
pub mod Backoff
pub mod Supply
use developer_gateway.Prelude.{
  ℕ, zero, suc, ◌+◌, ◌*◌, ◌%◌, ◌^◌, Bool, true, false, Option, none, some, List, [], ◌∷◌, ◌++◌, ltb,
  leb, if◌then◌else◌,
}

pub record RetryConfig : Type 0 where
  pub random : Bool
  pub unlimited_attempts : Bool
  pub attempts : ℕ
  pub base_exp : ℕ
  pub base_timeout : ℕ
  pub max_retry_timeout : ℕ

-- What a call of the supplier gives. `cannot_recover` is an error of type ErrCannotRecover.
pub data Attempt (V E : Type 0) : Type 0 where
  success : V → Attempt V E
  failure : E → Attempt V E
  cannot_recover : E → Attempt V E

pub data Event (V E : Type 0) : Type 0 where
  done : Event V E
  fired : Attempt V E → Event V E

-- What the call returns; `waiting` is a loop that has used up the events.
pub data Result (V E : Type 0) : Type 0 where
  value : V → Result V E
  canceled : Result V E
  unrecoverable : E → Result V E
  max_attempts_reached : List E → Result V E
  waiting : Result V E

-- The variables of the loop, and the times that the timer was reset to.
pub record Loop (E : Type 0) : Type 0 where
  pub errs : List E
  pub attempts : ℕ
  pub timeout : ℕ
  pub waits : List ℕ

-- `timeout > maxTimeout` on int64.
abbrev pub exceeds : ℕ → ℕ → Bool
exceeds a b = ltb ((b + 2 ^ 63) % 2 ^ 64) ((a + 2 ^ 63) % 2 ^ 64)

-- `attempts >= maxAttempts && maxAttempts >= 0`, where unlimited attempts set `maxAttempts` to -1.
unfoldable pub exhausted : RetryConfig → ℕ → Bool
exhausted c attempts = if c.unlimited_attempts then false else leb c.attempts attempts

-- The timeout after a failed attempt.
unfoldable pub next_timeout : RetryConfig → (spread : ℕ → ℕ → ℕ) → (attempt timeout : ℕ) → ℕ
next_timeout c spread attempt timeout =
    let grown = (timeout * c.base_exp) % 2 ^ 64 in
    let capped : ℕ = if exceeds grown c.max_retry_timeout then c.max_retry_timeout else grown in
    if c.random then (spread attempt capped + 1) % 2 ^ 64 else capped

-- The state after a failed attempt that is not the last.
unfoldable pub back_off : {E : Type 0} → RetryConfig → (spread : ℕ → ℕ → ℕ) → Loop E → E → Loop E
back_off c spread s e =
    let n : ℕ = s.attempts + 1 in
    let t = next_timeout c spread n s.timeout in
    record { errs = s.errs ++ (e ∷ []); attempts = n; timeout = t; waits = s.waits ++ (t ∷ []) }

abbrev pub start : {E : Type 0} → RetryConfig → Loop E
start c = record { errs = []; attempts = 0; timeout = c.base_timeout; waits = [] }

module _ {V E : Type 0} (c : RetryConfig) (spread : ℕ → ℕ → ℕ) where
  unfoldable pub retry_loop : Loop E → List (Event V E) → Result V E × Loop E
  retry_loop s [] = (waiting, s)
  retry_loop s (done ∷ es) = (canceled, s)
  retry_loop s (fired (success v) ∷ es) = (value v, s)
  retry_loop s (fired (cannot_recover e) ∷ es) = (unrecoverable e, s)
  retry_loop s (fired (failure e) ∷ es) =
      let rest = retry_loop (back_off c spread s e) es in
      if exhausted c (s.attempts + 1) then (max_attempts_reached (s.errs ++ (e ∷ [])), s) else rest

  unfoldable pub retry_with_config : List (Event V E) → Result V E × Loop E
  retry_with_config = retry_loop (start c)
