-- ===== src/Noise/Client.antt =====
-- `Client` of noise/client.go: a pool of connections, each with a goroutine that serves requests.
use developer_gateway.Prelude.{ℕ, ◌≡◌, refl, ap, Bool, true, List, [], ◌∷◌, ◌++◌}
use developer_gateway.Noise.{Result, ok, err, panicked, Library}
use developer_gateway.Noise.Frames.{Codec, Requester}
use developer_gateway.Noise.Conn.{Conn, send_request, dial_conn}

-- What the select statement of `startConnLoop` receives.
pub data ConnEvent (Req : Type 0) : Type 0 where
  context_done channel_closed : ConnEvent Req
  request_received : Req → ConnEvent Req

-- The pool that `DialContext` returns: its connections, and whether their context is cancelled.
pub record Pool (H C : Type 0) : Type 0 where
  pub conns : List (Conn H C)
  pub cancelled : Bool

module _ {H C Req Res R : Type 0} (lib : Library H C) (codec : Codec Req Res)
    (client : Requester R) where
  -- `startConnLoop`: the responses, one for each request that is received.
  unfoldable start_conn_loop :
      Conn H C → List (ConnEvent Req) → R → List (Result Res) × Conn H C × R
  start_conn_loop c [] r = ([], c, r)
  start_conn_loop c (context_done ∷ events) r = ([], c, r)
  start_conn_loop c (channel_closed ∷ events) r = ([], c, r)
  start_conn_loop c (request_received req ∷ events) r =
      let (result, c', r') = send_request lib codec client c req r in
      let (results, c'', r'') = start_conn_loop c' events r' in (result ∷ results, c'', r'')

  -- The loop of `DialContext`, for the handshakes and ids of the connections.
  unfoldable dial_all : (initiator : Bool) → List (H × List ℕ) → R → Result (List (Conn H C)) × R
  dial_all initiator [] r = (ok [], r)
  dial_all initiator ((state, id) ∷ rest) r =
      let (dialed, r') = dial_conn lib codec client initiator state id r in
      let (more, r'') = dial_all initiator rest r' in
      elim dialed as (λ _. Result (List (Conn H C)) × R) [
        | err e ↦ (err e, r')
        | panicked ↦ (panicked, r')
        | ok c ↦ elim more as (λ _. Result (List (Conn H C)) × R) [
          | err e ↦ (err e, r'')
          | panicked ↦ (panicked, r'')
          | ok cs ↦ (ok (c ∷ cs), r'')
        ]
      ]

  -- `DialContext`: the context of the goroutines is cancelled when it returns.
  unfoldable dial_context : (initiator : Bool) → List (H × List ℕ) → R → Result (Pool H C) × R
  dial_context initiator states r =
      let (dialed, r') = dial_all initiator states r in
      elim dialed as (λ _. Result (Pool H C) × R) [
        | err e ↦ (err e, r')
        | panicked ↦ (panicked, r')
        | ok conns ↦ (ok (record { conns = conns; cancelled = true }), r')
      ]

  -- What is sent to a connection after it has seen that its context is done has no response.
  done_serves_nothing :
      (c : Conn H C) (before after : List (ConnEvent Req)) (r : R)
      → start_conn_loop c (before ++ (context_done ∷ after)) r
        ≡ start_conn_loop c (before ++ (context_done ∷ [])) r
  unfolding start_conn_loop
  done_serves_nothing c [] after r = refl
  done_serves_nothing c (context_done ∷ before) after r = refl
  done_serves_nothing c (channel_closed ∷ before) after r = refl
  done_serves_nothing c (request_received req ∷ before) after r =
      let next = send_request lib codec client c req r in
      ap (λ l. (next.0 ∷ l.0, l.1, l.2)) (done_serves_nothing next.1 before after next.2)
