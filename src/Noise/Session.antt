-- ===== src/Noise/Session.antt =====
-- `Session` of noise/session.go: a handshake, and what it is upgraded to. The functions that its reader and
-- writer are set to follow from its handler.
pub mod Upgrades
use developer_gateway.Prelude.{ℕ, Bool, true, false, Option, none, some, List, [], ◌||◌, String}
use developer_gateway.Noise.{NoiseError, other_error, Result, ok, err, panicked, Library}
use developer_gateway.Noise.Handshake.{
  Stage, handshake_init, handshake_completed, handshake_closed, HandshakeHandler, handshake_read,
  handshake_write,
}
use developer_gateway.Noise.Transport.{TransportHandler, transport_read, transport_write}

pub data Handler (H C : Type 0) : Type 0 where
  handshake : HandshakeHandler H C → Handler H C
  transport : TransportHandler C → Handler H C

pub record Session (H C : Type 0) : Type 0 where
  pub can_upgrade : Bool
  pub handler : Handler H C
  pub id : List ℕ

-- `HandshakeHandler.CanUpgrade`
abbrev pub is_completed : {H C : Type 0} → HandshakeHandler H C → Bool
is_completed s = elim s.stage [
  | handshake_init ↦ false
  | handshake_completed ↦ true
  | handshake_closed ↦ false
]

-- `NewSession`, of a handshake state of the library and 32 random bytes.
abbrev pub new_session : {H C : Type 0} → H → (id : List ℕ) → Session H C
new_session state id = record {
  can_upgrade = false;
  handler =
      handshake (record {
        stage = handshake_init;
        state = state;
        local_cipher = none;
        remote_cipher = none;
      });
  id = id;
}

-- `HandshakeHandler.Upgrade`
unfoldable pub upgrade_handler :
    {H C : Type 0} → HandshakeHandler H C → Result (TransportHandler C) × HandshakeHandler H C
upgrade_handler {H} {C} s =
    let closed : HandshakeHandler H C = record s {
      stage = handshake_closed;
      local_cipher = none;
      remote_cipher = none;
    } in
    let refused : Result (TransportHandler C) × HandshakeHandler H C =
      (err (other_error "Handshake has not completed"), s) in
    elim s.stage [
      | handshake_init ↦ refused
      | handshake_closed ↦ refused
      | handshake_completed ↦ elim s.local_cipher [
        | none ↦ (panicked, s)
        | some local ↦ elim s.remote_cipher [
          | none ↦ (panicked, s)
          | some remote ↦ (ok (record { local_cipher = local; remote_cipher = remote }), closed)
        ]
      ]
    ]

-- `Upgrade`: the new session, and the old one.
unfoldable pub upgrade : {H C : Type 0} → Session H C → Result (Session H C) × Session H C
upgrade {H} {C} s =
    let upgraded : Result (Session H C) × Session H C = elim s.handler [
      | transport t ↦ (panicked, s)
      | handshake h ↦ elim (upgrade_handler h).0 [
        | err e ↦ (panicked, s)
        | panicked ↦ (panicked, s)
        | ok t ↦ (
          ok (record { can_upgrade = false; handler = transport t; id = s.id }),
          record s { handler = handshake (upgrade_handler h).1 },
        )
      ]
    ] in
    elim s.can_upgrade [
      | false ↦ (err (other_error "session is not ready to be upgraded"), s)
      | true ↦ upgraded
    ]

-- The end of `readHandshake` and `writeHandshake`.
abbrev pub keep_handshake :
    {H C : Type 0}
    → Session H C
    → Result (List ℕ) × HandshakeHandler H C × List ℕ
    → Result (List ℕ) × Session H C × List ℕ
keep_handshake s (ok n, h, left) =
    (ok n, record s { handler = handshake h; can_upgrade = s.can_upgrade || is_completed h }, left)
keep_handshake s (err e, h, left) = (err e, record s { handler = handshake h }, left)
keep_handshake s (panicked, h, left) = (panicked, record s { handler = handshake h }, left)

abbrev pub keep_transport :
    {H C : Type 0}
    → Session H C
    → Result (List ℕ) × TransportHandler C × List ℕ
    → Result (List ℕ) × Session H C × List ℕ
keep_transport s (result, t, left) = (result, record s { handler = transport t }, left)

module _ {H C : Type 0} (lib : Library H C) where
  -- `Read`
  unfoldable pub session_read : Session H C → List ℕ → Result (List ℕ) × Session H C × List ℕ
  session_read s buffer = elim s.handler [
    | handshake h ↦ keep_handshake s (handshake_read lib h buffer)
    | transport t ↦ keep_transport s (transport_read lib t buffer)
  ]

  -- `Write`
  unfoldable pub session_write : Session H C → List ℕ → Result (List ℕ) × Session H C × List ℕ
  session_write s buffer = elim s.handler [
    | handshake h ↦ keep_handshake s (handshake_write lib h buffer)
    | transport t ↦ keep_transport s (transport_write lib t buffer)
  ]
