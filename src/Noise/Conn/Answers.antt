-- ===== src/Noise/Conn/Answers.antt =====
-- The requests of a connection of noise/conn.go.
use developer_gateway.Prelude.{
  ℕ, ◌≤◌, ◌≡◌, refl, ap, false, Option, none, some, List, [], ◌∷◌, ◌++◌, String, length, arith, All,
  map,
}
use developer_gateway.Noise.{NoiseError, other_error, Result, ok, err, Library, message_limit}
use developer_gateway.Noise.Transport.{TransportHandler}
use developer_gateway.Noise.Transport.Messages.{write_whole}
use developer_gateway.Noise.Transport.Transfer.{AreCiphers, one_arrives}
use developer_gateway.Noise.Session.{
  Session, transport, keep_transport, session_read, session_write,
}
use developer_gateway.Noise.Frames.{
  Codec, serialize_buffer_into_frame, Requester, deserialize_response_message,
}
use developer_gateway.Noise.Conn.{Conn, parse_response, send_session, send_request}
use developer_gateway.Noise.Conn.Peer.{peer, reply, FramesParse, Answered}

-- A connection in transport mode with empty buffers.
abbrev pub open_conn : {H C : Type 0} → TransportHandler C → (id : List ℕ) → Conn H C
open_conn t id = record {
  session = record { can_upgrade = false; handler = transport t; id = id };
  in_buffer = [];
  out_buffer = [];
}

module _ {H C Req Res R : Type 0} (lib : Library H C) (codec : Codec Req Res)
    (client : Requester R) where
  session_sent :
      (s s' : Session H C) (plain framed frame response left rest p : List ℕ) (r r' : R)
      → codec.encode_frame s.id plain ≡ some frame
      → client (framed ++ frame) r ≡ ((none, response, left), r')
      → session_read lib s response ≡ (ok p, s', rest)
      → send_session lib codec client s plain framed r ≡ (ok p, s', (rest, left), r')
  unfolding send_session
  session_sent s s' plain framed frame response left rest p r r' encoded sent read =
      simp (send_session, serialize_buffer_into_frame, encoded, sent, read) refl

  request_sent :
      (c : Conn H C) (s s' : Session H C) (req : Req) (res : Res)
      (message p m left in' out' rest : List ℕ) (r r' : R)
      → codec.encode_request req ≡ some message
      → session_write lib c.session (c.in_buffer ++ message) ≡ (ok p, s, left)
      → send_session lib codec client s (c.out_buffer ++ p) left r ≡ (ok m, s', (out', in'), r')
      → deserialize_response_message codec (in' ++ m) ≡ (some res, rest)
      → send_request lib codec client c req r
        ≡ (ok res, record { session = s'; in_buffer = rest; out_buffer = out' }, r')
  unfolding send_request
  request_sent c s s' req res message p m left in' out' rest r r' encoded written sent parsed =
      simp (send_request, encoded, written, sent, parse_response, parsed) refl

  session_failed :
      (s : Session H C) (plain framed frame response left : List ℕ) (text : String) (r r' : R)
      → codec.encode_frame s.id plain ≡ some frame
      → client (framed ++ frame) r ≡ ((some text, response, left), r')
      → send_session lib codec client s plain framed r
        ≡ (err (other_error text), s, (response, left), r')
  unfolding send_session
  session_failed s plain framed frame response left text r r' encoded sent =
      simp (send_session, serialize_buffer_into_frame, encoded, sent) refl

  request_failed :
      (c : Conn H C) (s s' : Session H C) (req : Req) (message p left in' out' : List ℕ)
      (e : NoiseError) (r r' : R)
      → codec.encode_request req ≡ some message
      → session_write lib c.session (c.in_buffer ++ message) ≡ (ok p, s, left)
      → send_session lib codec client s (c.out_buffer ++ p) left r ≡ (err e, s', (out', in'), r')
      → send_request lib codec client c req r
        ≡ (err e, record { session = s'; in_buffer = in'; out_buffer = out' }, r')
  unfolding send_request
  request_failed c s s' req message p left in' out' e r r' encoded written sent =
      simp (send_request, encoded, written, sent, parse_response) refl

module _ {H C Req Res : Type 0} (lib : Library H C) (laws : AreCiphers lib) (codec : Codec Req Res)
    (parse_frame : List ℕ → Option (List ℕ × List ℕ)) (answer : List ℕ → List ℕ) where
  open laws use {Paired, stays}

  -- The ciphers of both directions belong together.
  abbrev Connected : TransportHandler C → TransportHandler C → Type 0
  Connected t u = Paired t.remote_cipher u.local_cipher × Paired u.remote_cipher t.local_cipher

  request_succeeds :
      (id : List ℕ) (t u : TransportHandler C) (req : Req) (res : Res)
      → FramesParse codec parse_frame answer
      → Connected t u
      → Answered codec parse_frame answer req res
      → (t' : TransportHandler C) × (u' : TransportHandler C) × Connected t' u'
        × (send_request lib codec (peer lib parse_frame answer) (open_conn t id) req u
            ≡ (ok res, open_conn t' id, u'))
  unfolding session_write session_read peer
  request_succeeds id t u req res frames (there, back) (message, encoded, fits, fits', decoded) =
      let out = (lib.encrypt t.remote_cipher message).0 in
      let t1 : TransportHandler C = record t {
        remote_cipher = (lib.encrypt t.remote_cipher message).1;
      } in
      let u1 : TransportHandler C = record u {
        local_cipher = (lib.decrypt u.local_cipher out).1;
      } in
      let reply_out = (lib.encrypt u.remote_cipher (answer message)).0 in
      let u2 : TransportHandler C = record u1 {
        remote_cipher = (lib.encrypt u.remote_cipher (answer message)).1;
      } in
      let t2 : TransportHandler C = record t1 {
        local_cipher = (lib.decrypt t.local_cipher reply_out).1;
      } in
      let (frame, framed, parsed) = frames id out in
      let sent = write_whole lib t message (omega arith) in
      let received = one_arrives lib laws t u message there fits in
      let replied = write_whole lib u1 (answer message) (omega arith) in
      let returned = one_arrives lib laws u1 t1 (answer message) back fits' in
      let answered : peer lib parse_frame answer frame u ≡ ((none, reply_out, []), u2) =
        simp (peer, parsed, reply, received, replied) refl in
      let s1 : Session H C = record { can_upgrade = false; handler = transport t1; id = id } in
      let s2 : Session H C = record { can_upgrade = false; handler = transport t2; id = id } in
      let wrote : session_write lib (open_conn t id).session message ≡ (ok out, s1, []) =
        ap (keep_transport (open_conn t id).session) sent in
      let read : session_read lib s1 reply_out ≡ (ok (answer message), s2, []) =
        ap (keep_transport s1) returned in
      let exchanged =
        session_sent lib codec (peer lib parse_frame answer) s1 s2 out [] frame reply_out [] []
          (answer message) u u2 framed answered read in
      (
        t2,
        u2,
        (
          stays t.remote_cipher u.local_cipher message there,
          stays u.remote_cipher t.local_cipher (answer message) back,
        ),
        request_sent lib codec (peer lib parse_frame answer) (open_conn t id) s1 s2 req res message
            out (answer message) [] [] [] [] u u2 encoded wrote exchanged decoded,
      )

  -- The responses to requests that are sent one after another.
  unfoldable pub responses : Conn H C → TransportHandler C → List Req → List (Result Res)
  responses c u [] = []
  responses c u (req ∷ reqs) =
      let (result, c', u') = send_request lib codec (peer lib parse_frame answer) c req u in
      result ∷ responses c' u' reqs

  -- If the ciphers of a connection and of the other end belong together, and frames parse, then requests that
  -- fit into messages, whose responses fit into messages too and are read whole from what the other end
  -- answers, are answered one after another, each with the response to it.
  pub all_requests_succeed :
      (exchanges : List (Req × Res)) (id : List ℕ) (t u : TransportHandler C)
      → FramesParse codec parse_frame answer
      → Connected t u
      → All (λ e. Answered codec parse_frame answer e.0 e.1) exchanges
      → responses (open_conn t id) u (map (λ e. e.0) exchanges) ≡ map (λ e. ok e.1) exchanges
  unfolding responses
  all_requests_succeed [] id t u frames connected answered = refl
  all_requests_succeed ((req, res) ∷ exchanges) id t u frames connected (first, answered) =
      let (t', u', connected', runs) = request_succeeds id t u req res frames connected first in
      let rest = all_requests_succeed exchanges id t' u' frames connected' answered in
      simp (responses, runs) (ap (λ l. ok res ∷ l) rest)

module _ {H C Req Res R : Type 0} (lib : Library H C) (codec : Codec Req Res)
    (client : Requester R) where
  -- If the other end fails before it has read the frame of a request, then the request fails with its error, and
  -- the frame stays in the buffer that the next request is appended to.
  pub failed_request_leaves_frame :
      (t : TransportHandler C) (id : List ℕ) (req : Req) (message frame : List ℕ) (text : String)
      (r r' : R)
      → codec.encode_request req ≡ some message
      → length message ≤ message_limit
      → codec.encode_frame id (lib.encrypt t.remote_cipher message).0 ≡ some frame
      → client frame r ≡ ((some text, [], frame), r')
      → ((send_request lib codec client (open_conn t id) req r).0 ≡ err (other_error text))
        × ((send_request lib codec client (open_conn t id) req r).1.in_buffer ≡ frame)
  unfolding session_write
  failed_request_leaves_frame t id req message frame text r r' encoded short framed failed =
      let out = (lib.encrypt t.remote_cipher message).0 in
      let t1 : TransportHandler C = record t {
        remote_cipher = (lib.encrypt t.remote_cipher message).1;
      } in
      let s1 : Session H C = record { can_upgrade = false; handler = transport t1; id = id } in
      let wrote : session_write lib (open_conn t id).session message ≡ (ok out, s1, []) =
        ap (keep_transport (open_conn t id).session) (write_whole lib t message short) in
      let runs =
        request_failed lib codec client (open_conn t id) s1 s1 req message out [] frame []
          (other_error text) r r' encoded wrote
          (session_failed lib codec client s1 out [] frame [] frame text r r' framed failed) in
      (ap (λ x. x.0) runs, ap (λ x. x.1.in_buffer) runs)
