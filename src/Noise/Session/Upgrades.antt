-- ===== src/Noise/Session/Upgrades.antt =====
-- The handshake of a session of noise/session.go, and its upgrade.
use developer_gateway.Prelude.{
  ℕ, ◌≡◌, ◌≢◌, refl, true, false, some, List, [], ◌∷◌, ◌⊎◌, Bool, length, ◌≤◌,
}
use developer_gateway.Noise.{
  other_error, Result, ok, err, panicked, Exchange, out_of_turn, Library, message_limit,
}
use developer_gateway.Noise.Handshake.{
  handshake_init, handshake_completed, HandshakeHandler, exchange, handshake_write, take_message,
}
use developer_gateway.Noise.Transport.{TransportHandler}
use developer_gateway.Noise.Transport.Messages.{read_buffer_whole}
use developer_gateway.Noise.Session.{
  handshake, transport, Session, upgrade, keep_handshake, session_read, session_write,
}

-- What is done with a session during its handshake.
pub data Action : Type 0 where
  reads writes : List ℕ → Action

module _ {H C : Type 0} where
  -- A handshake goes on.
  abbrev Ongoing : HandshakeHandler H C → Type 0
  Ongoing h = h.stage ≡ handshake_init

  -- A handshake is over, and its ciphers are there.
  abbrev Over : HandshakeHandler H C → Type 0
  Over h =
      (h.stage ≡ handshake_completed)
      × (local : C) × (remote : C) × (h.local_cipher ≡ some local)
      × (h.remote_cipher ≡ some remote)

  -- A handshake after a message: it goes on, or it is over. It has panicked only if the library has.
  abbrev Exchanged : (calm : Type 0) → Result (List ℕ) × HandshakeHandler H C × List ℕ → Type 0
  Exchanged calm (r, h, left) =
      (Ongoing h × (calm → r ≢ panicked)) ⊎ (Over h × (p : List ℕ) × (r ≡ ok p))

  -- The library takes all messages in a state, as long as they are not too long.
  abbrev IsCalm : (message : H → List ℕ → Exchange C × H) → H → Type 0
  IsCalm message state =
      (bytes : List ℕ) → length bytes ≤ message_limit → (message state bytes).0 ≢ out_of_turn

  -- A session in its handshake: it can be upgraded exactly if its handshake is over.
  abbrev IsHandshaking : Session H C → Type 0
  IsHandshaking s =
      (h : HandshakeHandler H C) × (s.handler ≡ handshake h)
      × ((Ongoing h × (s.can_upgrade ≡ false)) ⊎ (Over h × (s.can_upgrade ≡ true)))

  -- What an upgrade comes to: an error if the session may not be upgraded, or else a session of the same
  -- id that is in transport mode.
  abbrev pub Upgraded : Session H C → Type 0
  Upgraded s =
      ((s.can_upgrade ≡ false)
        × ((upgrade s).0 ≡ err (other_error "session is not ready to be upgraded")))
      ⊎ ((s.can_upgrade ≡ true)
          × (t : TransportHandler C) × ((upgrade s).0
              ≡ ok (record { can_upgrade = false; handler = transport t; id = s.id })))

  -- What flynn/noise documents: a state of a handshake asks for a message from this end or from the other, and
  -- the library panics only at a message out of this turn, or that is too long.
  pub record Turns (lib : Library H C) : Type 0 where
    pub asks_write : H → Bool
    pub reads_calm : (state : H) → asks_write state ≡ false → IsCalm lib.read_message state
    pub writes_calm : (state : H) → asks_write state ≡ true → IsCalm lib.write_message state

  -- The action is the one that the handshake asks for; once it is over, any action is.
  abbrev IsAsked : (asks_write : H → Bool) → Action → Session H C → Type 0
  IsAsked asks_write (reads buffer) s =
      (h : HandshakeHandler H C) → s.handler ≡ handshake h → Ongoing h → asks_write h.state ≡ false
  IsAsked asks_write (writes buffer) s =
      (h : HandshakeHandler H C) → s.handler ≡ handshake h → Ongoing h → asks_write h.state ≡ true

  module _ (lib : Library H C) where
    unfoldable pub act : Action → Session H C → Result (List ℕ) × Session H C × List ℕ
    act (reads buffer) s = session_read lib s buffer
    act (writes buffer) s = session_write lib s buffer

    -- The results of reads and writes, one after another, and the session after them.
    unfoldable pub run_handshake : List Action → Session H C → List (Result (List ℕ)) × Session H C
    run_handshake [] s = ([], s)
    run_handshake (a ∷ actions) s =
        let (result, s', left) = act a s in
        let (results, last) = run_handshake actions s' in (result ∷ results, last)

    -- Each action is the one that the handshake asks for when it is made.
    abbrev pub AreAsked : (asks_write : H → Bool) → List Action → Session H C → Type 0
    AreAsked asks_write [] s = Unit
    AreAsked asks_write (a ∷ actions) s =
        IsAsked asks_write a s × AreAsked asks_write actions (act a s).1

    -- A write that the library does not take is a panic of the session: it has no guard of its own.
    unasked_write_panics :
        (s : Session H C) (h : HandshakeHandler H C) (buffer : List ℕ)
        → s.handler ≡ handshake h
        → Ongoing h
        → length buffer ≤ message_limit
        → (lib.write_message h.state buffer).0 ≡ out_of_turn
        → (session_write lib s buffer).0 ≡ panicked
    unfolding session_write handshake_write exchange
    unasked_write_panics s h buffer e going fits refused =
        let whole = read_buffer_whole message_limit buffer fits in
        let runs : exchange lib.write_message h buffer
            ≡ (panicked, record h { state = (lib.write_message h.state buffer).1 }, []) =
          simp (exchange, going, whole, take_message, refused) refl in
        simp (session_write, e, handshake_write, runs, keep_handshake) refl
