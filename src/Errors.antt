-- ===== src/Errors.antt =====
-- errors/error.go: error categories, error codes and the error value that carries a code.
pub mod Internal
pub mod Request
pub mod Table
use developer_gateway.Prelude.{ℕ, ◌≡◌, refl, Option, String}

-- `Category`; the texts of the constants are not compared by the code.
pub data Category : Type 0 where
  internal_error input_error state_conflict resource_limit_reached : Category
  not_found not_implemented authentication_error : Category

pub record ErrorCode : Type 0 where
  pub category : Category
  pub code : ℕ
  pub desc : String

-- `Error`. The cause is another error or nil; of a cause only its text is kept.
pub record Error : Type 0 where
  pub cause : Option String
  pub error_code : ErrorCode

-- `New`
abbrev pub new : ErrorCode → Option String → Error
new code cause = record { cause = cause; error_code = code }

-- What a call comes to: a value, an error that it returns, or a panic.
pub data Outcome {ℓ} (A : Type ℓ) : Type ℓ where
  ok : A → Outcome A
  err : Error → Outcome A
  panic : Outcome A

abbrev pub map_ok {ℓ κ} : {A : Type ℓ} {B : Type κ} → (A → B) → Outcome A → Outcome B
map_ok f (ok a) = ok (f a)
map_ok f (err e) = err e
map_ok f panic = panic

pub map_ok-const {ℓ κ μ} :
    {A : Type ℓ} {B : Type κ} {C : Type μ} (b : B) (c : C) (r : Outcome A)
    → map_ok (λ _. c) (map_ok (λ _. b) r) ≡ map_ok (λ _. c) r
map_ok-const b c (ok a) = refl
map_ok-const b c (err e) = refl
map_ok-const b c panic = refl
