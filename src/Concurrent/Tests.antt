-- ===== src/Concurrent/Tests.antt =====
-- Retries on concrete events: runs of the code, and the theorems at such inputs.
use developer_gateway.Prelude.{ℕ, ◌≡◌, refl, false, List, [], ◌∷◌, inr, arith}
use developer_gateway.Concurrent.Retry.{
  RetryConfig, retry_with_config, retry_loop, back_off, next_timeout, exhausted,
}
use developer_gateway.Concurrent.Retry.Outcomes.{failures}
use developer_gateway.Concurrent.Retry.Backoff.{schedule, retry_waits}

-- A configuration with small times.
abbrev config : RetryConfig
config = record {
  random = false;
  unlimited_attempts = false;
  attempts = 3;
  base_exp = 2;
  base_timeout = 1000;
  max_retry_timeout = 5000;
}

abbrev spread : ℕ → ℕ → ℕ
spread n t = t

abbrev two_failures : List ℕ
two_failures = 7 ∷ 8 ∷ []

waits_twice :
    (retry_with_config {V = ℕ} {E = ℕ} config spread (failures two_failures)).1.waits
    ≡ 2000 ∷ 4000 ∷ []
unfolding retry_with_config retry_loop back_off next_timeout exhausted
waits_twice = refl

retry_waits_example :
    (retry_with_config {V = ℕ} {E = ℕ} config spread (failures two_failures)).1.waits
    ≡ schedule config 1 2
retry_waits_example =
    retry_waits ℕ config spread
      (record { fixed = refl; grows = omega arith; below = omega arith; fits = omega arith })
      two_failures (inr (omega arith))
