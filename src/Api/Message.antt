-- ===== src/Api/Message.antt =====
-- `parseExecuteMessage` of api/v0/service/handler.go: where the AAD stands in a confidential message.
-- `decoded` is what `hex.Decode` gives for the data; a result `none` is a panic.
use developer_gateway.Prelude.{
  ℕ, ◌+◌, ◌-◌, ◌*◌, ◌^◌, ◌≡◌, ◌≤◌, ◌<◌, Option, none, some, List, [], ◌∷◌, length, take, drop,
  String, Bool, false, ltb, leb, ◌&&◌, if◌then◌else◌, arith,
}
use developer_gateway.Prelude.Words.{add64}
use developer_gateway.Auth.{AuthRequest}

-- `binary.BigEndian.Uint64` of eight bytes.
unfoldable pub big_endian : (acc : ℕ) → List ℕ → ℕ
big_endian acc [] = acc
big_endian acc (b ∷ bs) = big_endian (acc * 256 + b) bs

-- `len(dst) < int(n)`, where `int` takes the pattern of 64 bits as a signed number.
abbrev is_short : (len n : ℕ) → Bool
is_short len n = ltb n (2 ^ 63) && ltb len n

-- `dst[low:high]` of a slice whose capacity is its length.
unfoldable pub slice_bytes : List ℕ → (low high : ℕ) → Option (List ℕ)
slice_bytes dst low high =
    if leb low high && leb high (length dst) then some (take (high - low) (drop low dst)) else none

unfoldable pub parse_lengths :
    AuthRequest → (dst : List ℕ) (cipher_length aad_length : ℕ) → Option AuthRequest
parse_lengths req dst cipher_length aad_length =
    let aad_offset = add64 32 cipher_length in
    let aad = slice_bytes dst aad_offset (add64 aad_offset aad_length) in
    if is_short (length dst) (add64 (add64 cipher_length aad_length) 32)
    then some req
    else elim aad [ none ↦ none | some bytes ↦ some (record req { aad_bytes = bytes }) ]

unfoldable pub cipher_length_of : List ℕ → ℕ
cipher_length_of dst = big_endian 0 (take 8 (drop 16 dst))

unfoldable pub aad_length_of : List ℕ → ℕ
aad_length_of dst = big_endian 0 (take 8 (drop 24 dst))

abbrev pub unparsed : (address payload : String) → AuthRequest
unparsed address payload = record {
  api = "Execute";
  address = address;
  aad_bytes = [];
  pk = [];
  payload = payload;
}

unfoldable pub parse_execute_message :
    (address payload : String) (decoded : Option (List ℕ)) → Option AuthRequest
parse_execute_message address payload none = some (unparsed address payload)
parse_execute_message address payload (some dst) =
    let parsed =
      parse_lengths (record (unparsed address payload) { pk = take 16 dst }) dst
        (cipher_length_of dst) (aad_length_of dst) in
    if ltb (length dst) 32 then some (unparsed address payload) else parsed

parse_lengths-fit :
    (req : AuthRequest) (dst : List ℕ) (c a : ℕ)
    → length dst < 2 ^ 63
    → c + a + 32 ≤ length dst
    → parse_lengths req dst c a ≡ some (record req { aad_bytes = take a (drop (32 + c) dst) })
unfolding parse_lengths slice_bytes
parse_lengths-fit req dst c a small room =
    let start : add64 32 c ≡ 32 + c = omega arith in
    let stop : add64 (32 + c) a ≡ 32 + c + a = omega arith in
    let total : add64 (add64 c a) 32 ≡ c + a + 32 = omega arith in
    let size : (32 + c + a) - (32 + c) ≡ a = omega arith in
    rw (parse_lengths, slice_bytes, start, stop, total, size) (ground (arith, small, room))

parse_lengths_overlong :
    (req : AuthRequest) (dst : List ℕ) (c a : ℕ)
    → length dst < 2 ^ 63
    → 2 ^ 63 ≤ c + a + 32
    → c + a + 32 < 2 ^ 64
    → parse_lengths req dst c a ≡ none
unfolding parse_lengths slice_bytes
parse_lengths_overlong req dst c a small long fits = ground arith

-- If a message of less than 2^63 bytes has its header, and the header and the two lengths in it are
-- together at most as long as the message, then the AAD is the part of its length that comes after
-- the header and the cipher text, and the public key is the first 16 bytes.
pub parse_finds_aad :
    (address payload : String) (dst : List ℕ)
    → 32 ≤ length dst
    → length dst < 2 ^ 63
    → cipher_length_of dst + aad_length_of dst + 32 ≤ length dst
    → parse_execute_message address payload (some dst)
      ≡ some (record (unparsed address payload) {
        pk = take 16 dst;
        aad_bytes = take (aad_length_of dst) (drop (32 + cipher_length_of dst) dst);
      })
unfolding parse_execute_message
parse_finds_aad address payload dst header small room =
    let inside : ltb (length dst) 32 ≡ false = ground arith in
    rw inside (parse_lengths-fit _ dst (cipher_length_of dst) (aad_length_of dst) small room)

-- If the two lengths and the header add up to at least 2^63 and to less than 2^64, a message that has
-- its header and is shorter than 2^63 makes the parser panic.
pub overlong_lengths_panic :
    (address payload : String) (dst : List ℕ)
    → 32 ≤ length dst
    → length dst < 2 ^ 63
    → 2 ^ 63 ≤ cipher_length_of dst + aad_length_of dst + 32
    → cipher_length_of dst + aad_length_of dst + 32 < 2 ^ 64
    → parse_execute_message address payload (some dst) ≡ none
unfolding parse_execute_message
overlong_lengths_panic address payload dst header small long fits =
    let inside : ltb (length dst) 32 ≡ false = ground arith in
    rw inside
      (parse_lengths_overlong _ dst (cipher_length_of dst) (aad_length_of dst) small long fits)
