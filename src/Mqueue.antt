-- ===== src/Mqueue.antt =====
-- The messaging queues: mqueue/core/mqueue.go (the elements and the requests) and mqueue/mem (the
-- queue that is kept in memory). Its state and operations stand in the children.
pub mod Window
pub mod Handler
pub mod Server
pub mod Redis
mod Tests
use developer_gateway.Prelude.{ℕ, Bool, List, String}

-- `core.Element`
pub record Element : Type 0 where
  pub offset : ℕ
  pub value : String
  pub type : String

-- `core.Elements`
pub record Elements : Type 0 where
  pub offset : ℕ
  pub elements : List Element

-- The values that `MessageHandler.handleRequestEvent` switches on.
pub data Request : Type 0 where
  insert_request : Element → Request
  retrieve_request : (offset count : ℕ) → Request
  discard_request : (keep_previous : Bool) (count offset : ℕ) → Request
  next_request : Request

-- The `interface{}` that it returns.
pub data Response : Type 0 where
  nothing : Response
  found : Elements → Response
  reserved_offset : ℕ → Response
