-- ===== src/Noise/Frames.antt =====
-- The messages and frames of noise/codec.go, over the CBOR codec of ugorji/go, and what the other end of a
-- connection does with a request (`Requester` of noise/conn.go).
use developer_gateway.Prelude.{
  ℕ, false, Bool, Option, none, some, List, [], ◌∷◌, ◌++◌, String, same, if◌then◌else◌,
}

-- What is used of the codec: `Req` and `Res` are the payloads of a request and of a response, and a raw
-- value is its bytes. What decodes a list gives what is left of the buffer, too.
pub record Codec (Req Res : Type 0) : Type 0 where
  pub encode_request : Req → Option (List ℕ)
  pub encode_frame : (id payload : List ℕ) → Option (List ℕ)
  pub decode_list : List ℕ → Option (List (List ℕ)) × List ℕ
  pub decode_text : List ℕ → Option String
  pub decode_body : List ℕ → Option Res

-- `Requester`, on a state of the other end: an error, what is written as the response, and what is left of
-- the buffer of the request.
abbrev pub Requester : Type 0 → Type 0
Requester R = (request : List ℕ) → R → (Option String × List ℕ × List ℕ) × R

module _ {Req Res : Type 0} (codec : Codec Req Res) where
  -- `SerializeBufferIntoFrame`: the buffer that is written to, if there is no error. The other one is empty
  -- in any case.
  abbrev pub serialize_buffer_into_frame : (written buffer session_id : List ℕ) → Option (List ℕ)
  serialize_buffer_into_frame written buffer session_id =
      elim (codec.encode_frame session_id buffer) [
        | none ↦ none
        | some frame ↦ some (written ++ frame)
      ]

  -- The two fields of a response.
  abbrev response_of : List (List ℕ) → Option Res
  response_of (kind ∷ body ∷ []) = elim (codec.decode_text kind) [
    | none ↦ none
    | some t ↦ if same t "Response" then codec.decode_body body else none
  ]
  response_of _ = none

  -- `DeserializeResponseMessage`
  unfoldable pub deserialize_response_message : List ℕ → Option Res × List ℕ
  deserialize_response_message buffer =
      let (fields, left) = codec.decode_list buffer in
      (elim fields [ none ↦ none | some fs ↦ response_of fs ], left)

  abbrev is_close : List (List ℕ) → Bool
  is_close (kind ∷ []) = elim (codec.decode_text kind) [ none ↦ false | some t ↦ same t "Close" ]
  is_close _ = false

  -- `UnmarshalCloseMessage`: whether there is no error.
  unfoldable unmarshal_close_message : List ℕ → Bool
  unmarshal_close_message p = elim (codec.decode_list p).0 [ none ↦ false | some fs ↦ is_close fs ]
