-- ===== src/Concurrent/Retry/Backoff.antt =====
-- The times that `RetryWithConfig` waits between its attempts, when they are not drawn at random.
use mathlib.Core.List.{append_assoc, append-nil}
use native.Mathlib.Nat.{pow-zero, pow-suc, mul_assoc}
use developer_gateway.Prelude.{
  ℕ, zero, suc, ◌+◌, ◌*◌, ◌^◌, ◌≤◌, ◌<◌, ◌≡◌, refl, sym, ◌∙◌, ap, false, List, [], ◌∷◌, ◌++◌,
  length, min, arith, Bool-cases, inl, inr, ltb,
}
use developer_gateway.Concurrent.Retry.{
  RetryConfig, Loop, exhausted, next_timeout, start, back_off, retry_loop, retry_with_config,
}
use developer_gateway.Concurrent.Retry.Outcomes.{failures, IsLeft, exhausted-IsLeft}

-- The waits of `n` failures, from the `k`-th on: exponential up to the maximum.
abbrev pub schedule : RetryConfig → ℕ → ℕ → List ℕ
schedule c k zero = []
schedule c k (suc n) =
    min (c.base_timeout * c.base_exp ^ k) c.max_retry_timeout ∷ schedule c (suc k) n

-- The products of the loop stay in an int64.
pub record IsModest (c : RetryConfig) : Type 0 where
  pub fixed : c.random ≡ false
  pub grows : 1 ≤ c.base_exp
  pub below : c.base_timeout ≤ c.max_retry_timeout
  pub fits : c.max_retry_timeout * c.base_exp < 2 ^ 63

le-mul : (x e : ℕ) → 1 ≤ e → x ≤ x * e
le-mul x zero h = absurd (omega arith)
le-mul x (suc e) h = grind arith

capped_twice : (x e most : ℕ) → 1 ≤ e → min (min x most * e) most ≡ min (x * e) most
capped_twice x e most h = elim (Bool-cases (ltb most x)) [
  | inl above ↦
      let cut : min x most ≡ most = ground arith in
      rw cut (ground (arith, le-mul x e h, le-mul most e h))
  | inr below ↦ let whole : min x most ≡ x = ground arith in rw whole refl
]

next_timeout_lem :
    (c : RetryConfig) (spread : ℕ → ℕ → ℕ) (n t : ℕ)
    → c.random ≡ false
    → t * c.base_exp < 2 ^ 63
    → c.max_retry_timeout < 2 ^ 63
    → next_timeout c spread n t ≡ min (t * c.base_exp) c.max_retry_timeout
unfolding next_timeout
next_timeout_lem c spread n t r p q = ground arith

next_timeout-schedule :
    (c : RetryConfig) (spread : ℕ → ℕ → ℕ) (n k t : ℕ)
    → IsModest c
    → t ≡ min (c.base_timeout * c.base_exp ^ k) c.max_retry_timeout
    → next_timeout c spread n t ≡ min (c.base_timeout * c.base_exp ^ suc k) c.max_retry_timeout
next_timeout-schedule c spread n k t m h =
    let within : t ≤ c.max_retry_timeout = omega arith in
    let product : t * c.base_exp ≤ c.max_retry_timeout * c.base_exp = grind arith in
    let power : c.base_timeout * c.base_exp ^ suc k ≡ c.base_timeout * c.base_exp ^ k * c.base_exp =
      rw (pow-suc) (sym (mul_assoc c.base_timeout (c.base_exp ^ k) c.base_exp)) in
    next_timeout_lem c spread n t m.fixed (omega (arith, m.fits))
      (omega (arith, m.fits, le-mul c.max_retry_timeout c.base_exp m.grows))
    ∙ ap (λ x. min (x * c.base_exp) c.max_retry_timeout) h
    ∙ capped_twice (c.base_timeout * c.base_exp ^ k) c.base_exp c.max_retry_timeout m.grows
    ∙ ap (λ x. min x c.max_retry_timeout) (sym power)

module _ (V : Type 0) {E : Type 0} (c : RetryConfig) (spread : ℕ → ℕ → ℕ) (m : IsModest c) where
  retry_loop-schedule :
      (es : List E) (s : Loop E) (k : ℕ)
      → s.attempts ≡ k
      → s.timeout ≡ min (c.base_timeout * c.base_exp ^ k) c.max_retry_timeout
      → ((n : ℕ) → k < n → n ≤ k + length es → exhausted c n ≡ false)
      → (retry_loop c spread s (failures {V = V} es)).1.waits
        ≡ s.waits ++ schedule c (suc k) (length es)
  unfolding retry_loop back_off
  retry_loop-schedule [] s k a t h = sym (append-nil s.waits)
  retry_loop-schedule (e ∷ es) s k a t h =
      let next = next_timeout-schedule c spread (s.attempts + 1) k s.timeout m t in
      rw (h (s.attempts + 1) (omega arith) (omega arith)) (
        retry_loop-schedule es (back_off c spread s e) (suc k) (omega arith) next
          (λ n l r. h n (omega arith) (omega arith))
        ∙ append_assoc s.waits (next_timeout c spread (s.attempts + 1) s.timeout ∷ []) _
        ∙ ap (λ x. s.waits ++ x ∷ schedule c (suc (suc k)) (length es)) next)

  -- Without the random factor, with a base of at least one, a base timeout of at most the maximum and
  -- no overflow, the wait after the n-th failed attempt is the base timeout times the base to the n,
  -- or the maximum if that is less, as long as attempts are left.
  pub retry_waits :
      (es : List E)
      → IsLeft c (length es)
      → (retry_with_config c spread (failures {V = V} es)).1.waits ≡ schedule c 1 (length es)
  unfolding retry_with_config
  retry_waits es left =
      retry_loop-schedule es (start c) 0 refl first
        (λ n l r. exhausted-IsLeft c (length es) n left (omega arith))
    where
      first : c.base_timeout ≡ min (c.base_timeout * c.base_exp ^ 0) c.max_retry_timeout
      first = omega (arith, m.below, ap (λ x. c.base_timeout * x) (pow-zero c.base_exp))
