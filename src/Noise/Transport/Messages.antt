-- ===== src/Noise/Transport/Messages.antt =====
-- The messages that two transport handlers of noise/session.go exchange.
use developer_gateway.Prelude.{
  ℕ, zero, suc, ◌+◌, ◌≤◌, ◌<◌, ◌≡◌, refl, ◌∙◌, true, false, none, some, List, [], ◌∷◌, length, take,
  drop, ltb, arith, take_of_length-le, lt→ltb, min,
}
use developer_gateway.Rw.{limit_exceeded, copy_with_limit, ReadLimitProps}
use developer_gateway.Rw.Bounds.{copy_with_limit_decides}
use developer_gateway.Noise.{read_error, ok, err, Library, read_buffer, message_limit}
use developer_gateway.Noise.Transport.{TransportHandler, transport_write, transport_read}

drop_of_length-le {ℓ} : {A : Type ℓ} (n : ℕ) (l : List A) → length l ≤ n → drop n l ≡ []
drop_of_length-le zero [] h = refl
drop_of_length-le zero (a ∷ l) h = absurd (omega arith)
drop_of_length-le (suc n) [] h = refl
drop_of_length-le (suc n) (a ∷ l) h = drop_of_length-le n l (omega arith)

pub read_buffer_whole :
    (limit : ℕ) (buffer : List ℕ)
    → length buffer ≤ limit
    → read_buffer limit buffer ≡ (none, buffer, [])
unfolding read_buffer
read_buffer_whole limit buffer h =
    let props : ReadLimitProps = record {
      fail_on_exceed = true;
      limit = limit;
      err_on_eof = false;
    } in
    let few : ltb limit (length buffer) ≡ false = ground (arith, h) in
    let whole = take_of_length-le limit buffer h in
    let nothing = drop_of_length-le (limit + 1) buffer (omega arith) in
    let runs : copy_with_limit buffer props ≡ (min limit (length buffer), none, buffer) =
      copy_with_limit_decides buffer props ∙ simp (few, whole) refl in
    simp (read_buffer, runs, nothing) refl

pub read_buffer_exceeded :
    (limit : ℕ) (buffer : List ℕ)
    → limit < length buffer
    → read_buffer limit buffer
      ≡ (some limit_exceeded, take (limit + 1) buffer, drop (limit + 1) buffer)
unfolding read_buffer
read_buffer_exceeded limit buffer h =
    let props : ReadLimitProps = record {
      fail_on_exceed = true;
      limit = limit;
      err_on_eof = false;
    } in
    let many : ltb limit (length buffer) ≡ true = lt→ltb limit (length buffer) h in
    let runs : copy_with_limit buffer props ≡ (0, some limit_exceeded, take (limit + 1) buffer) =
      copy_with_limit_decides buffer props ∙ simp many refl in
    simp (read_buffer, runs) refl

module _ {H C : Type 0} (lib : Library H C) where
  pub write_whole :
      (t : TransportHandler C) (p : List ℕ)
      → length p ≤ message_limit
      → transport_write lib t p ≡ (
        ok (lib.encrypt t.remote_cipher p).0,
        record t { remote_cipher = (lib.encrypt t.remote_cipher p).1 },
        [],
      )
  unfolding transport_write
  write_whole t p h = simp (transport_write, read_buffer_whole message_limit p h) refl

  pub read_whole :
      (t : TransportHandler C) (p m : List ℕ) (c : C)
      → length p ≤ message_limit
      → lib.decrypt t.local_cipher p ≡ (some m, c)
      → transport_read lib t p ≡ (ok m, record t { local_cipher = c }, [])
  unfolding transport_read
  read_whole t p m c h opened =
      simp (transport_read, read_buffer_whole message_limit p h, opened) refl

  -- A message over the limit is refused before it is decrypted.
  pub read_exceeded :
      (t : TransportHandler C) (p : List ℕ)
      → message_limit < length p
      → transport_read lib t p ≡ (err (read_error limit_exceeded), t, drop (message_limit + 1) p)
  unfolding transport_read
  read_exceeded t p h = simp (transport_read, read_buffer_exceeded message_limit p h) refl
