-- ===== src/Eth/Client/Reports.antt =====
-- A transaction that a node accepts at once, through `PooledClient` (eth/client.go).
use developer_gateway.Prelude.{
  Option, ℕ, zero, suc, ◌^◌, ◌<◌, ◌≡◌, refl, ap, ◌∙◌, max, some, List, inl, ◌⊎◌, String, arith,
}
use developer_gateway.Eth.{EthError, Transaction}
use developer_gateway.Concurrent.Retry.{RetryConfig, Attempt, success, value, Loop, start}
use developer_gateway.Concurrent.Retry.Supply.{supply_loop, retry_supply}
use developer_gateway.Eth.Pool.{UniDialer, dial, attempt_request, request}
use developer_gateway.Eth.Client.{
  NodeServices, RawResponse, read_response, send_pooled, pooled_client,
}
use developer_gateway.Eth.Client.Status.{print_status, parse_uint-print_status}
use developer_gateway.Eth.Client.Answers.{read_some}

-- A supplier that succeeds is called once.
loop_succeeds :
    {S V E : Type 0} (c : RetryConfig) (spread : ℕ → ℕ → ℕ) (supply : S → Attempt V E × S) (n : ℕ)
    (s s' : S) (v : V) (l : Loop E)
    → supply s ≡ (success v, s')
    → supply_loop c spread supply (max 1 n) s l ≡ (value v, s')
unfolding supply_loop
loop_succeeds c spread supply zero s s' v l e = simp (supply_loop, e) refl
loop_succeeds c spread supply (suc n) s s' v l e =
    let more : max 1 (suc n) ≡ suc n = omega arith in
    let runs : supply_loop c spread supply (suc n) s l ≡ (value v, s') =
      simp (supply_loop, e) refl in
    ap (λ m. supply_loop c spread supply m s l) more ∙ runs

module _ {N V : Type 0} (dial_websocket : N → Option String × N)
    (fn : ℕ → N → (V ⊎ String) × N) where
  attempt_succeeds :
      (p : UniDialer N) (k : ℕ) (v : V) (n : N)
      → p.conn ≡ some k
      → fn k p.node ≡ (inl v, n)
      → attempt_request dial_websocket fn p ≡ (success v, record p { node = n })
  unfolding attempt_request dial
  attempt_succeeds p k v n connected answered =
      let dialed : dial dial_websocket p ≡ (inl k, p) = simp (dial, connected) refl in
      simp (attempt_request, dialed, answered) refl

  request_succeeds :
      (c : RetryConfig) (spread : ℕ → ℕ → ℕ) (p : UniDialer N) (k : ℕ) (v : V) (n : N)
      → p.conn ≡ some k
      → fn k p.node ≡ (inl v, n)
      → request dial_websocket fn c spread p ≡ (inl v, record p { node = n })
  unfolding request retry_supply
  request_succeeds c spread p k v n connected answered =
      let runs =
        loop_succeeds c spread (attempt_request dial_websocket fn) c.attempts p _ v (start c)
          (attempt_succeeds p k v n connected answered) in
      simp (request, retry_supply, runs) refl

module _ {N : Type 0} (node : NodeServices N) (c : RetryConfig) (spread : ℕ → ℕ → ℕ) where
  sent_runs :
      (tx : Transaction) (p : UniDialer N) (bytes : List ℕ) (answer : RawResponse ⊎ EthError)
      (p' : UniDialer N)
      → node.encode_transaction tx ≡ inl bytes
      → request node.dial_websocket
          (node.call_transaction "oasis_invoke" (node.encode_hex bytes))
          c
          spread
          p
        ≡ (answer, p')
      → send_pooled node c spread tx p ≡ (read_response answer, p')
  unfolding send_pooled
  sent_runs tx p bytes answer p' encoded runs = simp (send_pooled, encoded, runs) refl

  -- If the node of an open connection accepts the bytes of a transaction at once, and writes a status of
  -- 64 bits in hexadecimal, then the client returns this status with the node's output and hash, and
  -- has called the node once.
  pub accepted_transaction_reports :
      (tx : Transaction) (p : UniDialer N) (k : ℕ) (bytes : List ℕ) (status : ℕ)
      (output hash : String) (n : N)
      → p.conn ≡ some k
      → node.encode_transaction tx ≡ inl bytes
      → status < 2 ^ 64
      → node.call_transaction "oasis_invoke" (node.encode_hex bytes) k p.node
        ≡ (inl (record { output = output; status = print_status status; hash = hash }), n)
      → (pooled_client node c spread).send_transaction tx p
        ≡ (inl (record { output = output; status = status; hash = hash }), record p { node = n })
  accepted_transaction_reports tx p k bytes status output hash n connected encoded bound accepted =
      let fn = node.call_transaction "oasis_invoke" (node.encode_hex bytes) in
      let runs = request_succeeds node.dial_websocket fn c spread p k _ n connected accepted in
      sent_runs tx p bytes _ _ encoded runs
      ∙ ap (λ a. (a, record p { node = n }))
          (read_some _ status (parse_uint-print_status status bound))
