-- ===== src/Noise/Transport/Transfer.antt =====
-- Messages from one transport handler of noise/session.go to another, whose ciphers belong together.
use developer_gateway.Prelude.{
  ℕ, ◌+◌, ◌≤◌, ◌<◌, ◌≡◌, refl, ap, some, List, [], ◌∷◌, length, arith, All, map,
}
use developer_gateway.Rw.{limit_exceeded}
use developer_gateway.Noise.{read_error, Result, ok, err, panicked, Library, message_limit}
use developer_gateway.Noise.Transport.{TransportHandler, transport_write, transport_read}
use developer_gateway.Noise.Transport.Messages.{write_whole, read_whole, read_exceeded}

-- How many bytes a cipher adds to a message: its tag.
abbrev pub tag_size : ℕ
tag_size = 16

-- What flynn/noise documents of the two ciphers of a direction: the one opens what the other one has made,
-- message by message, in order.
pub record AreCiphers {H C : Type 0} (lib : Library H C) : Type 1 where
  pub Paired : C → C → Type 0
  pub opens : (c d : C) (p : List ℕ) → Paired c d → (lib.decrypt d (lib.encrypt c p).0).0 ≡ some p
  pub stays :
      (c d : C) (p : List ℕ)
      → Paired c d
      → Paired (lib.encrypt c p).1 (lib.decrypt d (lib.encrypt c p).0).1
  pub tagged : (c : C) (p : List ℕ) → length (lib.encrypt c p).0 ≡ length p + tag_size

module _ {H C : Type 0} (lib : Library H C) where
  -- The messages that are written by one handler and read by another, one after another.
  unfoldable pub transfer :
      TransportHandler C → TransportHandler C → List (List ℕ) → List (Result (List ℕ))
  transfer t u [] = []
  transfer t u (p ∷ ps) =
      let (written, t', left) = transport_write lib t p in
      elim written as (λ _. List (Result (List ℕ))) [
        | err e ↦ err e ∷ transfer t' u ps
        | panicked ↦ panicked ∷ transfer t' u ps
        | ok out ↦ (transport_read lib u out).0 ∷ transfer t' (transport_read lib u out).1 ps
      ]

  module _ (laws : AreCiphers lib) where
    open laws use {Paired, opens, stays, tagged}

    pub one_arrives :
        (t u : TransportHandler C) (p : List ℕ)
        → Paired t.remote_cipher u.local_cipher
        → length p + tag_size ≤ message_limit
        → transport_read lib u (lib.encrypt t.remote_cipher p).0 ≡ (
          ok p,
          record u {
            local_cipher = (lib.decrypt u.local_cipher (lib.encrypt t.remote_cipher p).0).1;
          },
          [],
        )
    one_arrives t u p paired fits =
        let out = (lib.encrypt t.remote_cipher p).0 in
        let size : length out ≡ length p + tag_size = tagged t.remote_cipher p in
        let opened : lib.decrypt u.local_cipher out ≡ (some p, (lib.decrypt u.local_cipher out).1) =
          ap (λ o. (o, (lib.decrypt u.local_cipher out).1))
            (opens t.remote_cipher u.local_cipher p paired) in
        read_whole lib u out p (lib.decrypt u.local_cipher out).1 (omega (arith, size)) opened

    -- If the ciphers belong together, then messages of at most 65519 bytes are read as they are written.
    pub messages_arrive :
        (ps : List (List ℕ)) (t u : TransportHandler C)
        → Paired t.remote_cipher u.local_cipher
        → All (λ p. length p + tag_size ≤ message_limit) ps
        → transfer t u ps ≡ map ok ps
    unfolding transfer
    messages_arrive [] t u paired fit = refl
    messages_arrive (p ∷ ps) t u paired (fits, fit) =
        let written = write_whole lib t p (omega arith) in
        let read = one_arrives t u p paired fits in
        let rest =
          messages_arrive ps (record t { remote_cipher = (lib.encrypt t.remote_cipher p).1 })
            (record u {
              local_cipher = (lib.decrypt u.local_cipher (lib.encrypt t.remote_cipher p).0).1;
            })
            (stays t.remote_cipher u.local_cipher p paired) fit in
        simp (transfer, written, read) (ap (λ l. ok p ∷ l) rest)

    -- A message of more bytes, but at most 65535, is written without an error, and is refused when it is
    -- read, by a handler that stays as it is.
    long_message_is_lost :
        (t u : TransportHandler C) (p : List ℕ)
        → length p ≤ message_limit
        → message_limit < length p + tag_size
        → (out : List ℕ) × (t' : TransportHandler C) × (transport_write lib t p ≡ (ok out, t', []))
          × ((transport_read lib u out).0 ≡ err (read_error limit_exceeded))
          × ((transport_read lib u out).1 ≡ u)
    long_message_is_lost t u p short long =
        let size = tagged t.remote_cipher p in
        let refused = read_exceeded lib u (lib.encrypt t.remote_cipher p).0 (omega (arith, size)) in
        (
          (lib.encrypt t.remote_cipher p).0,
          record t { remote_cipher = (lib.encrypt t.remote_cipher p).1 },
          write_whole lib t p short,
          ap (λ r. r.0) refused,
          ap (λ r. r.1) refused,
        )
