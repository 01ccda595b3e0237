-- ===== src/Noise/Conn/Peer.antt =====
-- The other end of a connection of noise/conn.go, as a program of this package would be it: it parses a
-- frame, reads its payload with its own ciphers, and writes what its handler answers.
use developer_gateway.Prelude.{ℕ, ◌+◌, ◌≤◌, ◌≡◌, Option, none, some, List, [], String, length}
use developer_gateway.Noise.{ok, err, panicked, Library, message_limit}
use developer_gateway.Noise.Transport.{TransportHandler, transport_read, transport_write}
use developer_gateway.Noise.Transport.Transfer.{tag_size}
use developer_gateway.Noise.Frames.{Codec, Requester, deserialize_response_message}

module _ {H C : Type 0} (lib : Library H C) (parse_frame : List ℕ → Option (List ℕ × List ℕ))
    (answer : List ℕ → List ℕ) where
  abbrev pub reply :
      TransportHandler C → List ℕ → (Option String × List ℕ × List ℕ) × TransportHandler C
  reply u payload =
      let (read, u', rest) = transport_read lib u payload in
      elim read [
        | err e ↦ ((some "read", [], []), u')
        | panicked ↦ ((some "read", [], []), u')
        | ok message ↦
            let (written, u'', left) = transport_write lib u' (answer message) in
            elim written [
              | err e ↦ ((some "write", [], []), u'')
              | panicked ↦ ((some "write", [], []), u'')
              | ok out ↦ ((none, out, []), u'')
            ]
      ]

  unfoldable pub peer : Requester (TransportHandler C)
  peer request u = elim (parse_frame request) [
    | none ↦ ((some "frame", [], []), u)
    | some (id, payload) ↦ reply u payload
  ]

module _ {Req Res : Type 0} (codec : Codec Req Res)
    (parse_frame : List ℕ → Option (List ℕ × List ℕ)) (answer : List ℕ → List ℕ) where
  -- A frame can be made of any payload, and is parsed back.
  abbrev pub FramesParse : Type 0
  FramesParse =
      (id payload : List ℕ)
      → (frame : List ℕ) × (codec.encode_frame id payload ≡ some frame)
        × (parse_frame frame ≡ some (id, payload))

  -- A request and what is answered fit into messages, and the answer decodes to a response.
  abbrev pub Answered : Req → Res → Type 0
  Answered req res =
      (message : List ℕ) × (codec.encode_request req ≡ some message)
      × (length message + tag_size ≤ message_limit)
      × (length (answer message) + tag_size ≤ message_limit)
      × (deserialize_response_message codec (answer message) ≡ (some res, []))
