-- ===== src/Noise/Handshake.antt =====
-- `HandshakeHandler` of noise/session.go.
use developer_gateway.Prelude.{ℕ, Option, none, some, List}
use developer_gateway.Noise.{
  err_ready_upgrade, read_error, other_error, Result, ok, err, panicked, Exchange, processed,
  rejected, out_of_turn, Library, read_buffer, message_limit,
}

-- `HandshakeCompletionStage`
pub data Stage : Type 0 where
  handshake_init handshake_completed handshake_closed : Stage

pub record HandshakeHandler (H C : Type 0) : Type 0 where
  pub stage : Stage
  pub state : H
  pub local_cipher : Option C
  pub remote_cipher : Option C

module _ {H C : Type 0} (message : H → List ℕ → Exchange C × H) where
  -- The end of `Read` and `Write`, for a message that the library has taken.
  abbrev pub completed :
      HandshakeHandler H C → H → List ℕ → Option (C × C) → Result (List ℕ) × HandshakeHandler H C
  completed s state' p ciphers = elim ciphers [
    | none ↦ (ok p, record s { state = state' })
    | some (remote, local) ↦ elim s.stage [
      | handshake_init ↦ (
        ok p,
        record {
          stage = Stage.handshake_completed;
          state = state';
          local_cipher = some local;
          remote_cipher = some remote;
        },
      )
      | handshake_completed ↦ (panicked, record s { state = state' })
      | handshake_closed ↦ (panicked, record s { state = state' })
    ]
  ]

  abbrev pub take_message : HandshakeHandler H C → List ℕ → Result (List ℕ) × HandshakeHandler H C
  take_message s bytes =
      let (taken, state') = message s.state bytes in
      elim taken [
        | rejected ↦ (err (other_error "noise"), record s { state = state' })
        | out_of_turn ↦ (panicked, record s { state = state' })
        | processed p ciphers ↦ completed s state' p ciphers
      ]

  -- `Read` and `Write`, which differ in what the library makes of the bytes: what is written or an error,
  -- the handler, and what is left of the buffer.
  unfoldable pub exchange :
      HandshakeHandler H C → List ℕ → Result (List ℕ) × HandshakeHandler H C × List ℕ
  exchange s buffer =
      let (error, bytes, left) = read_buffer message_limit buffer in
      let (taken, s') = take_message s bytes in
      elim s.stage [
        | handshake_completed ↦ (err err_ready_upgrade, s, buffer)
        | handshake_closed ↦ (panicked, s, buffer)
        | handshake_init ↦ elim error [
          | some e ↦ (err (read_error e), s, left)
          | none ↦ (taken, s', left)
        ]
      ]

module _ {H C : Type 0} (lib : Library H C) where
  unfoldable pub handshake_read :
      HandshakeHandler H C → List ℕ → Result (List ℕ) × HandshakeHandler H C × List ℕ
  handshake_read = exchange lib.read_message

  unfoldable pub handshake_write :
      HandshakeHandler H C → List ℕ → Result (List ℕ) × HandshakeHandler H C × List ℕ
  handshake_write = exchange lib.write_message
