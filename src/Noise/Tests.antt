-- ===== src/Noise/Tests.antt =====
-- A handshake of three messages and ciphers that prefix a message with their count, sixteen times.
use developer_gateway.Prelude.{
  Bool, ◌%◌, ℕ, ◌+◌, ◌-◌, ◌≡◌, ◌≢◌, refl, ap, ap₂, true, Option, none, some, List, [], ◌∷◌, ◌++◌,
  length, take, drop, replicate, arith, same, take-append, ◌==◌, if◌then◌else◌,
}
use developer_gateway.Rw.{copy_with_limit}
use developer_gateway.Noise.{
  Exchange, processed, rejected, out_of_turn, Library, ok, err, other_error, read_buffer,
}
use developer_gateway.Noise.Handshake.{HandshakeHandler, exchange, handshake_read, handshake_write}
use developer_gateway.Noise.Transport.{TransportHandler}
use developer_gateway.Noise.Transport.Transfer.{AreCiphers, transfer, messages_arrive}
use developer_gateway.Noise.Session.{
  handshake, transport, Handler, session_read, session_write, upgrade, upgrade_handler,
}
use developer_gateway.Noise.Session.Upgrades.{Action, reads, writes, Turns}
use developer_gateway.Noise.Frames.{Codec, Requester, deserialize_response_message}
use developer_gateway.Noise.Conn.{
  send_request, dial_conn, do_handshake, handshake_loop, finish_handshake, send_frame, send_session,
}
use developer_gateway.Noise.Conn.Peer.{FramesParse, Answered}
use developer_gateway.Noise.Conn.Answers.{
  open_conn, responses, all_requests_succeed, failed_request_leaves_frame,
}

-- The messages that are left of a handshake: odd ones are written, the others read.
abbrev next_message : ℕ → Exchange ℕ × ℕ
next_message n =
    if n == 0 then (rejected, 0) else (processed [] (if n == 1 then some (5, 8) else none), n - 1)

abbrev is_written : ℕ → Bool
is_written n = n % 2 == 1

abbrev library : Library ℕ ℕ
library = record {
  read_message = λ n bytes. if is_written n then (out_of_turn, n) else next_message n;
  write_message = λ n bytes. if is_written n then next_message n else (out_of_turn, n);
  encrypt = λ c p. (replicate 16 c ++ p, c + 1);
  decrypt = λ c p. (some (drop 16 p), c + 1);
}

next_message_calm : (n : ℕ) → (next_message n).0 ≢ out_of_turn
next_message_calm n e = ground (arith, e)

abbrev turns : Turns library
turns = record {
  asks_write = is_written;
  reads_calm = λ n even bytes fits e. next_message_calm n (rw even at e);
  writes_calm = λ n odd bytes fits e. next_message_calm n (rw odd at e);
}

abbrev ciphers : AreCiphers library
ciphers = record {
  Paired = λ c d. c ≡ d;
  opens = λ c d p e. refl;
  stays = λ c d p e. ap (λ n. n + 1) e;
  tagged = λ c p. omega arith;
}

abbrev here : TransportHandler ℕ
here = record { local_cipher = 8; remote_cipher = 5 }

abbrev there : TransportHandler ℕ
there = record { local_cipher = 5; remote_cipher = 8 }

messages_arrive_example :
    transfer library here there ((1 ∷ 2 ∷ []) ∷ [] ∷ (3 ∷ []) ∷ [])
    ≡ ok (1 ∷ 2 ∷ []) ∷ ok [] ∷ ok (3 ∷ []) ∷ []
messages_arrive_example =
    messages_arrive library ciphers ((1 ∷ 2 ∷ []) ∷ [] ∷ (3 ∷ []) ∷ []) here there refl
      (omega arith, (omega arith, (omega arith, tt)))

abbrev actions : List Action
actions = writes [] ∷ reads (1 ∷ []) ∷ writes [] ∷ reads (2 ∷ []) ∷ []

-- The handshake of a handler.
abbrev handshake_or : HandshakeHandler ℕ ℕ → Handler ℕ ℕ → HandshakeHandler ℕ ℕ
handshake_or h (handshake h') = h'
handshake_or h (transport t) = h

abbrev codec : Codec (List ℕ) (List ℕ)
codec = record {
  encode_request = λ req. some req;
  encode_frame = λ id payload. some (length id ∷ (id ++ payload));
  decode_list = λ bytes. (some ((1 ∷ []) ∷ bytes ∷ []), []);
  decode_text = λ bytes. some "Response";
  decode_body = λ bytes. some bytes;
}

-- An end that fails before it reads a request.
abbrev refuses : Requester ℕ
refuses request r = ((some "refused", [], request), r)

-- An end that answers with a byte.
abbrev replies : Requester ℕ
replies request r = ((none, 1 ∷ [], []), r)

abbrev parse_frame : List ℕ → Option (List ℕ × List ℕ)
parse_frame [] = none
parse_frame (n ∷ bytes) = some (take n bytes, drop n bytes)

drop_whole : (xs ys : List ℕ) → drop (length xs) (xs ++ ys) ≡ ys
drop_whole [] ys = refl
drop_whole (x ∷ xs) ys = drop_whole xs ys

frames_parse : FramesParse codec parse_frame (λ m. 9 ∷ m)
frames_parse id payload = (
  length id ∷ (id ++ payload),
  refl,
  ap₂ (λ a b. some (a, b)) (take-append id payload) (drop_whole id payload),
)

answered : (n : ℕ) → Answered codec parse_frame (λ m. 9 ∷ m) (n ∷ []) (9 ∷ n ∷ [])
unfolding deserialize_response_message same
answered n = (n ∷ [], refl, omega arith, omega arith, refl)

all_requests_succeed_example :
    responses library ciphers codec parse_frame
      (λ m. 9 ∷ m)
      (open_conn here (4 ∷ []))
      there
      ((1 ∷ []) ∷ (2 ∷ []) ∷ [])
    ≡ ok (9 ∷ 1 ∷ []) ∷ ok (9 ∷ 2 ∷ []) ∷ []
all_requests_succeed_example =
    all_requests_succeed library ciphers codec parse_frame (λ m. 9 ∷ m)
      ((1 ∷ [], 9 ∷ 1 ∷ []) ∷ (2 ∷ [], 9 ∷ 2 ∷ []) ∷ []) (4 ∷ []) here there frames_parse
      (refl, refl) (answered 1, (answered 2, tt))

failed_request_leaves_frame_example :
    ((send_request library codec refuses (open_conn here []) (1 ∷ []) 0).0
      ≡ err (other_error "refused"))
    × ((send_request library codec refuses (open_conn here []) (1 ∷ []) 0).1.in_buffer
        ≡ 0 ∷ (replicate 16 5 ++ (1 ∷ [])))
failed_request_leaves_frame_example =
    failed_request_leaves_frame library codec refuses here [] (1 ∷ []) (1 ∷ [])
      (0 ∷ (replicate 16 5 ++ (1 ∷ []))) "refused" 0 0 refl (omega arith) refl refl

-- The first end of the handshake: its second round finds it over, which is no error.
dialed : (dial_conn library codec replies true 3 (4 ∷ []) 0).0 ≡ ok (open_conn here (4 ∷ []))
unfolding dial_conn do_handshake handshake_loop finish_handshake send_frame send_session
    session_read session_write handshake_read handshake_write exchange upgrade upgrade_handler
    read_buffer copy_with_limit
dialed = refl
