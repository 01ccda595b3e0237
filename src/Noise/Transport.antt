-- ===== src/Noise/Transport.antt =====
-- `TransportHandler` of noise/session.go.
pub mod Messages
pub mod Transfer
use developer_gateway.Prelude.{ℕ, Option, none, some, List, [], String}
use developer_gateway.Noise.{
  NoiseError, read_error, other_error, Result, ok, err, panicked, Library, read_buffer,
  message_limit,
}

-- Its additional data are never set.
pub record TransportHandler (C : Type 0) : Type 0 where
  pub local_cipher : C
  pub remote_cipher : C

module _ {H C : Type 0} (lib : Library H C) where
  -- `Write`: what is written or an error, the handler, and what is left of the buffer.
  unfoldable pub transport_write :
      TransportHandler C → List ℕ → Result (List ℕ) × TransportHandler C × List ℕ
  transport_write t buffer =
      let (error, bytes, left) = read_buffer message_limit buffer in
      let (out, cipher) = lib.encrypt t.remote_cipher bytes in
      elim error [
        | some e ↦ (err (read_error e), t, left)
        | none ↦ (ok out, record t { remote_cipher = cipher }, left)
      ]

  -- `Read`
  unfoldable pub transport_read :
      TransportHandler C → List ℕ → Result (List ℕ) × TransportHandler C × List ℕ
  transport_read t buffer =
      let (error, bytes, left) = read_buffer message_limit buffer in
      let (opened, cipher) = lib.decrypt t.local_cipher bytes in
      elim error [
        | some e ↦ (err (read_error e), t, left)
        | none ↦ elim opened [
          | none ↦ (err (other_error "noise"), record t { local_cipher = cipher }, left)
          | some p ↦ (ok p, record t { local_cipher = cipher }, left)
        ]
      ]
