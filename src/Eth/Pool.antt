-- ===== src/Eth/Pool.antt =====
-- `UniDialer` and `PooledClient` of eth/client.go: one connection to a node, and requests on it that are
-- retried. A connection is the number of those that were opened before it. The node, with
-- what `rpc.DialWebsocket` makes of it, is a parameter.
pub mod Requests
use developer_gateway.Prelude.{
  ℕ, ◌+◌, Bool, true, false, Option, none, some, List, [], ◌∷◌, ◌⊎◌, inl, inr, String, leb, ◌==◌,
  if◌then◌else◌,
}
use Prim.Native.String.{find, len}
use developer_gateway.Eth.{
  EthError, exceeds_balance, exceeds_block_limit, invalid_nonce, other_error,
}
use developer_gateway.Concurrent.Retry.{
  RetryConfig, Attempt, success, failure, cannot_recover, Result, value, canceled, unrecoverable,
  max_attempts_reached, waiting,
}
use developer_gateway.Concurrent.Retry.Supply.{retry_supply}

-- `UniDialer`, with the state of the node.
pub record UniDialer (N : Type 0) : Type 0 where
  pub conn : Option ℕ
  pub opened : ℕ
  pub node : N

module _ {N : Type 0} (dial_websocket : N → Option String × N) where
  -- `dial`, the answer to `Conn`; dialing fails with a text.
  unfoldable pub dial : UniDialer N → (ℕ ⊎ String) × UniDialer N
  dial p =
      let (refusal, node) = dial_websocket p.node in
      elim p.conn [
        | some k ↦ (inl k, p)
        | none ↦ elim refusal [
          | some text ↦ (inr text, record p { node = node })
          | none ↦
              (inl p.opened, record p { conn = some p.opened; opened = p.opened + 1; node = node })
        ]
      ]

-- `returnClient`, the answer to `Report`
unfoldable pub return_client : {N : Type 0} → ℕ → UniDialer N → UniDialer N
return_client k p = elim p.conn [
  | some c ↦ if c == k then record p { conn = none } else p
  | none ↦ p
]

abbrev contains : String → String → Bool
contains text part = leb (find text part) (len text)

-- `inferError`, of the text of an error
unfoldable pub infer_error : {V : Type 0} → String → Attempt V EthError
infer_error text =
    if contains text "Cost of transaction exceeds sender balance"
    then cannot_recover (exceeds_balance text)
    else if contains text "Requested gas greater than block gas limit"
    then cannot_recover (exceeds_block_limit text)
    else if contains text "Invalid transaction nonce"
    then cannot_recover (invalid_nonce text)
    else failure (other_error text)

-- The last of the errors of all attempts.
abbrev pub last_error : List EthError → EthError
last_error [] = other_error ""
last_error (e ∷ []) = e
last_error (e ∷ (f ∷ es)) = last_error (f ∷ es)

module _ {N V : Type 0} (dial_websocket : N → Option String × N)
    (fn : ℕ → N → (V ⊎ String) × N) where
  -- The supplier of `request`, which calls `fn` on the connection.
  unfoldable pub attempt_request : UniDialer N → Attempt V EthError × UniDialer N
  attempt_request p =
      let (conn, p') = dial dial_websocket p in
      elim conn [
        | inr text ↦ (failure (other_error text), p')
        | inl k ↦
            let (answer, node) = fn k p'.node in
            (
              elim answer [ inl v ↦ success v | inr text ↦ infer_error text ],
              record p' { node = node },
            )
      ]

  -- What `request` returns. The text that it puts before that of the last error is not part of it.
  abbrev pub request_result : Result V EthError → V ⊎ EthError
  request_result (value v) = inl v
  request_result (unrecoverable e) = inr e
  request_result (max_attempts_reached es) = inr (last_error es)
  request_result canceled = inr (other_error "context canceled")
  request_result waiting = inr (other_error "")

  -- `request`; its retries are over when the attempts are.
  unfoldable pub request :
      (retry_config : RetryConfig)
      → (spread : ℕ → ℕ → ℕ) → UniDialer N
      → (V ⊎ EthError) × UniDialer N
  request c spread p =
      let (result, p') = retry_supply c spread attempt_request p in (request_result result, p')
