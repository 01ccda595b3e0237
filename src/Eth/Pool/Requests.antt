-- ===== src/Eth/Pool/Requests.antt =====
-- What a request of `PooledClient` (eth/client.go) comes from, and the connection that it leaves.
use mathlib.Core.Path.{subst}
use developer_gateway.Prelude.{
  ℕ, ◌≡◌, ◌≢◌, refl, sym, ap, ◌∙◌, false, Option, some, List, [], ◌∷◌, ◌++◌, ◌⊎◌, inl, inr, String,
  max, Sum-cases, arith,
}
use developer_gateway.Eth.{EthError}
use developer_gateway.Concurrent.Retry.{
  RetryConfig, Attempt, success, failure, cannot_recover, Result, value, canceled, unrecoverable,
  max_attempts_reached, waiting, start,
}
use developer_gateway.Concurrent.Retry.Supply.{
  retry_supply, retry_supply_ends, Came, supply_loop_holds,
}
use developer_gateway.Eth.Pool.{
  UniDialer, dial, infer_error, last_error, attempt_request, request_result, request,
}

last_error-append : (es : List EthError) (e : EthError) → last_error (es ++ (e ∷ [])) ≡ e
last_error-append [] e = refl
last_error-append (f ∷ []) e = refl
last_error-append (f ∷ (g ∷ es)) e = last_error-append (g ∷ es) e

module _ {N V : Type 0} (dial_websocket : N → Option String × N) (fn : ℕ → N → (V ⊎ String) × N)
    (k : ℕ) where
  -- What the function gives on the connection in some state of the node.
  abbrev Given : Attempt V EthError → Type 0
  Given (success v) = (n : N) × ((fn k n).0 ≡ inl v)
  Given (cannot_recover e) =
      (n : N) × (text : String) × ((fn k n).0 ≡ inr text)
      × (infer_error {V = V} text ≡ cannot_recover e)
  Given (failure e) =
      (n : N) × (text : String) × ((fn k n).0 ≡ inr text) × (infer_error {V = V} text ≡ failure e)

  inferred :
      (n : N) (text : String) (a : Attempt V EthError)
      → (fn k n).0 ≡ inr text
      → infer_error text ≡ a
      → Given a
  unfolding infer_error
  inferred n text (success v) e f = absurd (ground (arith, f))
  inferred n text (cannot_recover x) e f = (n, text, e, f)
  inferred n text (failure x) e f = (n, text, e, f)

  attempt_request-Given :
      (p : UniDialer N)
      → p.conn ≡ some k
      → ((attempt_request dial_websocket fn p).1.conn ≡ some k)
        × Given (attempt_request dial_websocket fn p).0
  unfolding attempt_request dial
  attempt_request-Given p connected =
      let dialed : dial dial_websocket p ≡ (inl k, p) = simp (dial, connected) refl in
      elim (Sum-cases (fn k p.node).0) [
        | inl (v, e) ↦
            let runs : attempt_request dial_websocket fn p
                ≡ (success v, record p { node = (fn k p.node).1 }) =
              simp (attempt_request, dialed, e) refl in
            subst (λ q. (q.1.conn ≡ some k) × Given q.0) (sym runs) (connected, (p.node, e))
        | inr (text, e) ↦
            let runs : attempt_request dial_websocket fn p
                ≡ (infer_error text, record p { node = (fn k p.node).1 }) =
              simp (attempt_request, dialed, e) refl in
            subst (λ q. (q.1.conn ≡ some k) × Given q.0) (sym runs)
              (connected, inferred p.node text _ e refl)
      ]

  -- The answer of a request on the connection.
  abbrev pub IsAnswer : V ⊎ EthError → Type 0
  IsAnswer (inl v) = (n : N) × ((fn k n).0 ≡ inl v)
  IsAnswer (inr e) =
      (n : N) × (text : String) × ((fn k n).0 ≡ inr text)
      × ((infer_error {V = V} text ≡ cannot_recover e) ⊎ (infer_error {V = V} text ≡ failure e))

  request_result-IsAnswer :
      (r : Result V EthError)
      → r ≢ waiting
      → Came Given r
      → IsAnswer (request_result dial_websocket fn r)
  request_result-IsAnswer (value v) ended given = given
  request_result-IsAnswer (unrecoverable e) ended (n, text, f, g) = (n, text, f, inl g)
  request_result-IsAnswer (max_attempts_reached es) ended (earlier, e, all, (n, text, f, g)) =
      subst (λ x. IsAnswer (inr x)) (sym (ap last_error all ∙ last_error-append earlier e))
        (n, text, f, inr g)
  request_result-IsAnswer canceled ended never = absurd never
  request_result-IsAnswer waiting ended given = absurd (ended refl)

  -- On an open connection, a request with limited attempts gives what the node answered on that
  -- connection: the value, or the error that is inferred from the text. It is open afterwards, whatever
  -- the node has answered.
  pub request_answers :
      (c : RetryConfig) (spread : ℕ → ℕ → ℕ) (p : UniDialer N)
      → c.unlimited_attempts ≡ false
      → p.conn ≡ some k
      → IsAnswer (request dial_websocket fn c spread p).0
        × ((request dial_websocket fn c spread p).1.conn ≡ some k)
  unfolding request retry_supply
  request_answers c spread p limited connected =
      let supply = attempt_request dial_websocket fn in
      let (kept, came) =
        supply_loop_holds c spread supply (λ q. q.conn ≡ some k) Given attempt_request-Given
          (max 1 c.attempts) p (start c) connected in
      (request_result-IsAnswer _ (retry_supply_ends c spread supply p limited) came, kept)
