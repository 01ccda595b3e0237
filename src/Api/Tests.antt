-- ===== src/Api/Tests.antt =====
-- Messages with a public key of zeros, and the theorems on them.
use developer_gateway.Prelude.{ℕ, ◌≡◌, none, some, List, [], ◌∷◌, ◌++◌, replicate, arith}
use developer_gateway.Api.Message.{
  parse_execute_message, parse_finds_aad, overlong_lengths_panic, unparsed, big_endian,
  cipher_length_of, aad_length_of,
}

-- One byte of cipher text, 9, and two of AAD, 7 and 8.
abbrev message : List ℕ
message =
    replicate 16 0 ++ (replicate 7 0 ++ (1 ∷ [])) ++ (replicate 7 0 ++ (2 ∷ [])) ++ (9 ∷ 7 ∷ 8 ∷ [])

parse_finds_aad_example :
    parse_execute_message "0x00" "0x" (some message)
    ≡ some (record (unparsed "0x00" "0x") { pk = replicate 16 0; aad_bytes = 7 ∷ 8 ∷ [] })
unfolding cipher_length_of aad_length_of big_endian
parse_finds_aad_example =
    parse_finds_aad "0x00" "0x" message (omega arith) (omega arith) (omega arith)

-- The length of the cipher text is 2^63.
abbrev overlong : List ℕ
overlong = replicate 16 0 ++ (128 ∷ replicate 15 0)

overlong_lengths_panic_example : parse_execute_message "0x00" "0x" (some overlong) ≡ none
unfolding cipher_length_of aad_length_of big_endian
overlong_lengths_panic_example =
    overlong_lengths_panic "0x00" "0x" overlong (omega arith) (omega arith) (omega arith)
      (omega arith)
