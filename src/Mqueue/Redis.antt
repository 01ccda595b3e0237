-- ===== src/Mqueue/Redis.antt =====
-- `MQueue` of mqueue/redis/redis.go, with the commands of command.go. The scripts that it has the redis
-- server run are in Mqueue/Redis/Scripts. The instrumentation of the methods is not part of it.
pub mod Scripts
pub mod Numbers
pub mod Limits
mod Tests
use developer_gateway.Prelude.{
  ℕ, ◌+◌, Bool, true, false, Option, none, some, List, [], ◌∷◌, String, same, ◌==◌, ◌⊎◌, inl, inr,
  if◌then◌else◌,
}
use developer_gateway.Mqueue.{Element, Elements}

-- A payload of a script, as cjson and encoding/json read it: what is not there reads as an empty text.
pub record Slot : Type 0 where
  pub set_flag : Bool
  pub offset : ℕ
  pub value_type : String
  pub value : String
  pub discarded : Bool

-- `command`: the requests of command.go.
pub data Command : Type 0 where
  next_command remove_command : (key : String) → Command
  insert_command : (key : String) (offset : ℕ) (type content : String) → Command
  retrieve_command : (key : String) (offset count : ℕ) → Command
  discard_command : (key : String) (offset count : ℕ) (keep_previous : Bool) → Command

-- What `Eval` returns: a status, a number, the payloads of a list, or an error.
pub data Reply : Type 0 where
  status : String → Reply
  number : ℕ → Reply
  payloads : List Slot → Reply
  failure : (text : String) → Reply

-- The errors of error.go.
pub data RedisError : Type 0 where
  err_serialize err_redis_exec : (cause : String) → RedisError
  err_deserialize err_op_not_ok err_queue_not_found : RedisError

-- A reply of another type than the method expects is a panic.
pub data Result (A : Type 0) : Type 0 where
  ok : A → Result A
  err : RedisError → Result A
  panicked : Result A

-- `encoding/json` on a text.
pub record TextCodec : Type 0 where
  pub marshal : String → String ⊎ String
  pub unmarshal : String → Option String

-- What `insert` and `discard` make of a reply.
abbrev expect_ok : Reply → Result (Unit {0})
expect_ok (failure text) = err (err_redis_exec text)
expect_ok (status text) = if same text "OK" then ok tt else err err_op_not_ok
expect_ok (number n) = panicked
expect_ok (payloads slots) = panicked

-- What `next` makes of a reply.
abbrev expect_number : Reply → Result ℕ
expect_number (failure text) = err (err_redis_exec text)
expect_number (number n) = ok n
expect_number (status text) = panicked
expect_number (payloads slots) = panicked

-- What `remove` makes of the number of keys that are removed.
abbrev expect_removed : Result ℕ → Result (Unit {0})
expect_removed (ok n) = if n == 0 then err err_queue_not_found else ok tt
expect_removed (err e) = err e
expect_removed panicked = panicked

abbrev pub first_offset : List Slot → ℕ
first_offset [] = 0
first_offset (slot ∷ slots) = slot.offset

module _ (json : TextCodec) where
  -- The loop of `retrieve`: payloads that are not set are left out.
  unfoldable pub set_elements : List Slot → Option (List Element)
  set_elements [] = some []
  set_elements (slot ∷ slots) =
      let rest = set_elements slots in
      let added = elim (json.unmarshal slot.value) as (λ _. Option (List Element)) [
        | none ↦ none
        | some value ↦ elim rest as (λ _. Option (List Element)) [
          | none ↦ none
          | some elements ↦
              some
                (record { offset = slot.offset; value = value; type = slot.value_type } ∷ elements)
        ]
      ] in
      if slot.set_flag then added else rest

  abbrev pub expect_elements : Reply → Result Elements
  expect_elements (failure text) = err (err_redis_exec text)
  expect_elements (payloads slots) = elim (set_elements slots) [
    | none ↦ err err_deserialize
    | some elements ↦ ok (record { offset = first_offset slots; elements = elements })
  ]
  expect_elements (status text) = panicked
  expect_elements (number n) = panicked

  module _ {Q : Type 0} (eval : Command → Q → Reply × Q) where
    -- `Insert`
    unfoldable pub redis_insert : (key : String) → Element → Q → Result (Unit {0}) × Q
    redis_insert key el q = elim (json.marshal el.value) [
      | inr cause ↦ (err (err_serialize cause), q)
      | inl serialized ↦
          let (reply, q') = eval (insert_command key el.offset el.type serialized) q in
          (expect_ok reply, q')
    ]

    -- `Retrieve`
    unfoldable pub redis_retrieve : (key : String) (offset count : ℕ) → Q → Result Elements × Q
    redis_retrieve key offset count q =
        let (reply, q') = eval (retrieve_command key offset count) q in (expect_elements reply, q')

    -- `Discard`
    unfoldable pub redis_discard :
        (key : String) (offset count : ℕ) (keep_previous : Bool) → Q → Result (Unit {0}) × Q
    redis_discard key offset count keep_previous q =
        let (reply, q') = eval (discard_command key offset count keep_previous) q in
        (expect_ok reply, q')

    -- `Next`
    unfoldable pub redis_next : (key : String) → Q → Result ℕ × Q
    redis_next key q = let (reply, q') = eval (next_command key) q in (expect_number reply, q')

    -- `Remove`
    unfoldable redis_remove : (key : String) → Q → Result (Unit {0}) × Q
    redis_remove key q =
        let (reply, q') = eval (remove_command key) q in (expect_removed (expect_number reply), q')

-- `Exists`, of what the client's Exists counts.
abbrev redis_exists : {Q : Type 0} → (exists : String → Q → ℕ ⊎ String) → String → Q → Bool ⊎ String
redis_exists exists key q = elim (exists key q) [ inl n ↦ inl (n == 1) | inr text ↦ inr text ]
