-- ===== src/Backend/Queues.antt =====
-- The interface `MQueue` of mqueue/core/mqueue.go, as the package backend/core uses it. `Q` is the
-- state of the queues; an error is known by its text.
use developer_gateway.Prelude.{ℕ, Bool, String, ◌⊎◌}
use developer_gateway.Mqueue.{Element, Elements}

pub record DiscardRequest : Type 0 where
  pub keep_previous : Bool
  pub count : ℕ
  pub offset : ℕ
  pub key : String

pub record Queues (Q : Type 0) : Type 0 where
  pub insert : (key : String) → Element → Q → (Unit {0} ⊎ String) × Q
  pub retrieve : (key : String) (offset count : ℕ) → Q → (Elements ⊎ String) × Q
  pub discard : DiscardRequest → Q → (Unit {0} ⊎ String) × Q
  pub next : (key : String) → Q → (ℕ ⊎ String) × Q
  pub remove_queue : (key : String) → Q → (Unit {0} ⊎ String) × Q
  pub exists_queue : (key : String) → Q → (Bool ⊎ String) × Q
