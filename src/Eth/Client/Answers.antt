-- ===== src/Eth/Client/Answers.antt =====
-- What the requests of `PooledClient` (eth/client.go) answer.
use mathlib.Core.Path.{subst}
use developer_gateway.Prelude.{
  ℕ, ◌≡◌, refl, sym, false, none, some, List, ◌⊎◌, inl, inr, String, Sum-cases, Option-cases,
}
use Prim.Native.String.{◌++◌}
use developer_gateway.Eth.{SendTransactionResponse, EthError, other_error, Transaction}
use developer_gateway.Concurrent.Retry.{RetryConfig}
use developer_gateway.Eth.Pool.{UniDialer}
use developer_gateway.Eth.Pool.Requests.{IsAnswer, request_answers}
use developer_gateway.Eth.Client.{
  NodeServices, RawResponse, parse_uint, trim_prefix, read_response, on_node, send_pooled,
  pooled_client,
}

pub read_some :
    (res : RawResponse) (status : ℕ)
    → parse_uint (trim_prefix res.status) ≡ some status
    → read_response (inl res)
      ≡ inl (record { output = res.output; status = status; hash = res.hash })
unfolding read_response
read_some res status e = simp (read_response, e) refl

read_none :
    (res : RawResponse)
    → parse_uint (trim_prefix res.status) ≡ none
    → read_response (inl res) ≡ inr (other_error "Failed to parse tx status")
unfolding read_response
read_none res e = simp (read_response, e) refl

module _ {N : Type 0} (node : NodeServices N) (k : ℕ) (tx : Transaction) where
  -- The call of a transaction's bytes on the connection.
  abbrev invoke : List ℕ → N → (RawResponse ⊎ String) × N
  invoke bytes = node.call_transaction "oasis_invoke" (node.encode_hex bytes) k

  -- Where the answer to a transaction comes from.
  abbrev pub IsResponse : SendTransactionResponse ⊎ EthError → Type 0
  IsResponse (inl r) =
      (bytes : List ℕ) × (n : N) × (res : RawResponse) × (node.encode_transaction tx ≡ inl bytes)
      × ((invoke bytes n).0 ≡ inl res)
      × (parse_uint (trim_prefix res.status) ≡ some r.status)
      × (res.output ≡ r.output)
      × (res.hash ≡ r.hash)
  IsResponse (inr e) =
      ((text : String) × (node.encode_transaction tx ≡ inr text)
        × (e ≡ other_error ("Failed to encode transaction: " ++ text)))
      ⊎ ((bytes : List ℕ) × (node.encode_transaction tx ≡ inl bytes)
          × (IsAnswer node.dial_websocket
                (node.call_transaction "oasis_invoke" (node.encode_hex bytes)) k (inr e)
              ⊎ ((n : N) × (res : RawResponse) × ((invoke bytes n).0 ≡ inl res)
                  × (parse_uint (trim_prefix res.status) ≡ none)
                  × (e ≡ other_error "Failed to parse tx status"))))

  read_answer :
      (bytes : List ℕ) (answer : RawResponse ⊎ EthError)
      → node.encode_transaction tx ≡ inl bytes
      → IsAnswer node.dial_websocket
          (node.call_transaction "oasis_invoke" (node.encode_hex bytes))
          k
          answer
      → IsResponse (read_response answer)
  unfolding read_response
  read_answer bytes (inr e) encoded given = inr (bytes, encoded, inl given)
  read_answer bytes (inl res) encoded (n, e) =
      elim (Option-cases (parse_uint (trim_prefix res.status))) [
        | inl none_read ↦
            subst IsResponse (sym (read_none res none_read))
              (inr (bytes, encoded, inr (n, res, e, none_read, refl)))
        | inr (status, reads) ↦
            subst IsResponse (sym (read_some res status reads))
              (bytes, n, res, encoded, e, reads, refl, refl)
      ]

  -- On an open connection, with limited attempts, the client answers a transaction with what the node
  -- has answered to its bytes on that connection, the status read as a hexadecimal number, or with an error:
  -- the transaction has no bytes, the node gave a text that stands for it, or the status was
  -- not one. The connection stays open whatever the answer.
  pub sent_transaction_answers :
      (c : RetryConfig) (spread : ℕ → ℕ → ℕ) (p : UniDialer N)
      → c.unlimited_attempts ≡ false
      → p.conn ≡ some k
      → IsResponse ((pooled_client node c spread).send_transaction tx p).0
        × (((pooled_client node c spread).send_transaction tx p).1.conn ≡ some k)
  unfolding send_pooled
  sent_transaction_answers c spread p limited connected =
      elim (Sum-cases (node.encode_transaction tx)) [
        | inl (bytes, e) ↦
            let fn = node.call_transaction "oasis_invoke" (node.encode_hex bytes) in
            let (given, kept) =
              request_answers node.dial_websocket fn k c spread p limited connected in
            let runs : send_pooled node c spread tx p
                ≡ (read_response (on_node node c spread fn p).0, (on_node node c spread fn p).1) =
              simp (send_pooled, e) refl in
            subst (λ a. IsResponse a.0 × (a.1.conn ≡ some k)) (sym runs)
              (read_answer bytes _ e given, kept)
        | inr (text, e) ↦
            let runs : send_pooled node c spread tx p
                ≡ (inr (other_error ("Failed to encode transaction: " ++ text)), p) =
              simp (send_pooled, e) refl in
            subst (λ a. IsResponse a.0 × (a.1.conn ≡ some k)) (sym runs)
              (inl (text, e, refl), connected)
      ]
