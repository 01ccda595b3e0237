-- ===== src/Noise.antt =====
-- The package noise: sessions of the Noise protocol, over the library flynn/noise, and the connections that
-- send their messages in frames. Bytes are numbers; a buffer is the bytes that are left in it.
pub mod Handshake
pub mod Transport
pub mod Session
pub mod Frames
pub mod Conn
pub mod Client
mod Tests
use developer_gateway.Prelude.{ℕ, true, false, Option, List, String, drop, ◌+◌}
use developer_gateway.Rw.{ReadError, ReadLimitProps, copy_with_limit}

-- The errors that the package tells apart; of any other the text is kept.
pub data NoiseError : Type 0 where
  err_ready_upgrade : NoiseError
  read_error : ReadError → NoiseError
  other_error : (text : String) → NoiseError

pub data Result (A : Type 0) : Type 0 where
  ok : A → Result A
  err : NoiseError → Result A
  panicked : Result A

-- What comes of a message of a handshake: what the library makes of it, with two ciphers after the last one
-- (for what is sent, and for what is received); an error; or a panic, as of a message out of turn.
pub data Exchange (C : Type 0) : Type 0 where
  processed : List ℕ → Option (C × C) → Exchange C
  rejected out_of_turn : Exchange C

-- What is used of flynn/noise. A handshake takes or makes a message. A cipher counts its messages.
pub record Library (H C : Type 0) : Type 0 where
  pub read_message : H → List ℕ → Exchange C × H
  pub write_message : H → List ℕ → Exchange C × H
  pub encrypt : C → List ℕ → List ℕ × C
  pub decrypt : C → List ℕ → Option (List ℕ) × C

-- How many bytes a message has at most.
abbrev pub message_limit : ℕ
message_limit = 65535

-- What a handler reads of a buffer: its bytes or an error, and what is left of the buffer. Of more bytes
-- than the limit, one more is read.
unfoldable pub read_buffer : (limit : ℕ) → List ℕ → Option ReadError × List ℕ × List ℕ
read_buffer limit buffer =
    let props : ReadLimitProps = record {
      fail_on_exceed = true;
      limit = limit;
      err_on_eof = false;
    } in
    let (n, error, read) = copy_with_limit buffer props in (error, read, drop (limit + 1) buffer)
