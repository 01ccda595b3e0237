-- ===== src/Callback/Threshold.antt =====
-- `WalletReachedFundsThreshold` of callback/client/client.go: when a change of the balance of a wallet is
-- notified. A threshold that is not set is zero.
use developer_gateway.Prelude.{
  ℕ, ◌+◌, ◌≤◌, ◌<◌, ◌≡◌, ◌≢◌, refl, Bool, false, Option, none, some, List, [], ◌∷◌, ltb, ◌&&◌,
  if◌then◌else◌, arith, Bool-cases, inl, inr,
}

-- The guards of the method.
abbrev is_reached : (threshold : ℕ) → Option ℕ → Option ℕ → Bool
is_reached threshold before none = false
is_reached threshold none (some after) = ltb 0 threshold && ltb after threshold
is_reached threshold (some before) (some after) =
    ltb 0 threshold && ltb threshold before && ltb after threshold

-- The balances that a wallet owner reads one after another: how many changes are notified.
unfoldable pub notifications : (threshold : ℕ) → Option ℕ → List ℕ → ℕ
notifications threshold before [] = 0
notifications threshold before (after ∷ rest) =
    (if is_reached threshold before (some after) then 1 else 0)
    + notifications threshold (some after) rest

-- The balances never rise, and none is the threshold.
abbrev IsSpent : (threshold before : ℕ) → List ℕ → Type 0
IsSpent threshold before [] = Unit
IsSpent threshold before (after ∷ rest) =
    (after ≤ before) × (after ≢ threshold) × IsSpent threshold after rest

-- The last balance.
abbrev pub last_balance : ℕ → List ℕ → ℕ
last_balance before [] = before
last_balance before (after ∷ rest) = last_balance after rest

last_lowest :
    (threshold before : ℕ) (balances : List ℕ)
    → IsSpent threshold before balances
    → last_balance before balances ≤ before
last_lowest threshold before [] h = omega arith
last_lowest threshold before (after ∷ rest) (falls, ne, h) =
    omega (arith, falls, last_lowest threshold after rest h)

spent_below :
    (threshold before : ℕ) (balances : List ℕ)
    → before < threshold
    → IsSpent threshold before balances
    → notifications threshold (some before) balances ≡ 0
unfolding notifications
spent_below threshold before [] low h = refl
spent_below threshold before (after ∷ rest) low (falls, ne, h) =
    ground (arith, spent_below threshold after rest (omega (arith, low, falls)) h)

-- While the balance of a wallet falls and is never the threshold, exactly one change is notified if the
-- last balance is below the threshold, and none if it is not, where the first one is above it.
pub threshold_notified_once :
    (threshold before : ℕ) (balances : List ℕ)
    → 0 < threshold
    → threshold < before
    → IsSpent threshold before balances
    → notifications threshold (some before) balances
      ≡ (if ltb (last_balance before balances) threshold then 1 else 0)
unfolding notifications
threshold_notified_once threshold before [] set high h = ground arith
threshold_notified_once threshold before (after ∷ rest) set high (falls, ne, h) =
    elim (Bool-cases (ltb after threshold)) [
      | inl e ↦
          let low : after < threshold = ground (arith, e) in
          ground
            (arith, e, spent_below threshold after rest low h, last_lowest threshold after rest h)
      | inr e ↦
          ground
            (arith, e, threshold_notified_once threshold after rest set (ground (arith, e, ne)) h)
    ]

-- A balance that stops at the threshold is not notified, then or later.
threshold_missed :
    (threshold before : ℕ) (balances : List ℕ)
    → IsSpent threshold threshold balances
    → notifications threshold (some before) (threshold ∷ balances) ≡ 0
unfolding notifications
threshold_missed threshold before [] h = ground arith
threshold_missed threshold before (after ∷ rest) (falls, ne, h) =
    ground (arith, spent_below threshold after rest (omega (arith, falls, ne)) h)
