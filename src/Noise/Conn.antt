-- ===== src/Noise/Conn.antt =====
-- `Conn` of noise/conn.go: a session whose messages are sent in frames. Its buffers are bytes.Buffers, which
-- take all that is written to them.
pub mod Peer
pub mod Answers
use developer_gateway.Prelude.{
  ℕ, zero, suc, Bool, true, false, Option, none, some, List, [], ◌∷◌, ◌++◌, String, if◌then◌else◌,
}
use developer_gateway.Noise.{
  NoiseError, err_ready_upgrade, read_error, other_error, Result, ok, err, panicked, Library,
}
use developer_gateway.Noise.Session.{Session, new_session, upgrade, session_read, session_write}
use developer_gateway.Noise.Frames.{
  Codec, Requester, serialize_buffer_into_frame, deserialize_response_message,
}

pub record Conn (H C : Type 0) : Type 0 where
  pub session : Session H C
  pub in_buffer : List ℕ
  pub out_buffer : List ℕ

module _ {H C Req Res R : Type 0} (lib : Library H C) (codec : Codec Req Res)
    (client : Requester R) where
  -- The steps that `sendFrame` and `request` have in common. The two buffers are given by their roles: what
  -- is read into the session and the frame, and what the frame is written to.

  -- From the frame on: the frame of the whole buffer `plain` is written to `framed`, which is sent; the
  -- response is decrypted. What the session reads, the connection's session, the two buffers, and the
  -- state of the other end.
  unfoldable pub send_session :
      Session H C
      → (plain framed : List ℕ) → R
      → Result (List ℕ) × Session H C × (List ℕ × List ℕ) × R
  send_session s plain framed r = elim (serialize_buffer_into_frame codec framed plain s.id) [
    | none ↦ (err (other_error "codec"), s, ([], framed), r)
    | some sent ↦
        let ((failed, response, left), r') = client sent r in
        elim failed [
          | some text ↦ (err (other_error text), s, (response, left), r')
          | none ↦
              let (result, s', rest) = session_read lib s response in (result, s', (rest, left), r')
        ]
  ]

  -- `sendFrame`: what is written to `res`, and what is left of `req`.
  unfoldable pub send_frame :
      Conn H C → (req : List ℕ) → R → Result (List ℕ) × Conn H C × List ℕ × R
  send_frame c req r =
      let (written, s, left) = session_write lib c.session req in
      let kept : Conn H C = record c { session = s } in
      elim written [
        | err e ↦ (err e, kept, left, r)
        | panicked ↦ (panicked, kept, left, r)
        | ok p ↦
            let (result, s', (in', out'), r') = send_session s (c.in_buffer ++ p) c.out_buffer r in
            (result, record { session = s'; in_buffer = in'; out_buffer = out' }, left, r')
      ]

  -- The end of `request`: the response is parsed.
  abbrev pub parse_response : Result (List ℕ) × Conn H C × R → Result Res × Conn H C × R
  parse_response (err e, c, r) = (err e, c, r)
  parse_response (panicked, c, r) = (panicked, c, r)
  parse_response (ok p, c, r) =
      let (parsed, left) = deserialize_response_message codec (c.in_buffer ++ p) in
      let c' : Conn H C = record c { in_buffer = left } in
      elim parsed [ none ↦ (err (other_error "codec"), c', r) | some res ↦ (ok res, c', r) ]

  -- `request`: here the frame is made of `out_buffer`, and written to `in_buffer`.
  unfoldable pub send_request : Conn H C → Req → R → Result Res × Conn H C × R
  send_request c req r = elim (codec.encode_request req) [
    | none ↦ (err (other_error "codec"), c, r)
    | some message ↦
        let (written, s, left) = session_write lib c.session (c.in_buffer ++ message) in
        let kept : Conn H C = record c { session = s; in_buffer = left } in
        elim written [
          | err e ↦ (err e, kept, r)
          | panicked ↦ (panicked, kept, r)
          | ok p ↦
              let (result, s', (out', in'), r') = send_session s (c.out_buffer ++ p) left r in
              parse_response
                (result, record { session = s'; in_buffer = in'; out_buffer = out' }, r')
        ]
  ]

  -- Whether an error ends the loop of `doHandshake`.
  abbrev stops : Result (List ℕ) → Option (Result (Unit {0}))
  stops (ok []) = none
  stops (ok (b ∷ bs)) =
      some (err (other_error "noise payload not expected from remote endpoint during handshake"))
  stops (err err_ready_upgrade) = none
  stops (err (read_error e)) = some (err (read_error e))
  stops (err (other_error text)) = some (err (other_error text))
  stops panicked = some panicked

  -- The loop of `doHandshake`, with as many rounds as are left: its error, if any.
  unfoldable pub handshake_loop :
      (rounds : ℕ) → Conn H C → (req : List ℕ) → R → Option (Result (Unit {0})) × Conn H C × R
  handshake_loop zero c req r = (none, c, r)
  handshake_loop (suc rounds) c req r = elim c.session.can_upgrade [
    | true ↦ (none, c, r)
    | false ↦
        let (result, c', req', r') = send_frame c req r in
        elim (stops result) [ some e ↦ (some e, c', r') | none ↦ handshake_loop rounds c' req' r' ]
  ]

  -- `doHandshake` after its loop.
  unfoldable pub finish_handshake : Conn H C → Result (Unit {0}) × Conn H C
  finish_handshake c =
      let (upgraded, old) = upgrade c.session in
      elim c.session.can_upgrade [
        | false ↦ (err (other_error "handshake could not finish correctly"), c)
        | true ↦ elim upgraded [
          | ok s ↦ (ok tt, record { session = s; in_buffer = []; out_buffer = [] })
          | err e ↦ (ok tt, record c { session = old })
          | panicked ↦ (panicked, record c { session = old })
        ]
      ]

  unfoldable pub do_handshake : Conn H C → R → Result (Unit {0}) × Conn H C × R
  do_handshake c r =
      let (stopped, c', r') = handshake_loop 10 c [] r in
      elim stopped [
        | some e ↦ (e, c', r')
        | none ↦ let (result, c'') = finish_handshake c' in (result, c'', r')
      ]

  -- `DialConnContext`, of a new handshake of the library and the id of the session.
  unfoldable pub dial_conn : (initiator : Bool) → H → (id : List ℕ) → R → Result (Conn H C) × R
  dial_conn initiator state id r =
      let fresh : Conn H C = record {
        session = new_session state id;
        in_buffer = [];
        out_buffer = [];
      } in
      let (result, c, r') = do_handshake fresh r in
      if initiator
      then elim result as (λ _. Result (Conn H C) × R) [
        | ok _ ↦ (ok c, r')
        | err e ↦ (err e, r')
        | panicked ↦ (panicked, r')
      ]
      else (err (other_error "when dialing the connection has to initiate the handshake"), r)
