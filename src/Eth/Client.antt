-- ===== src/Eth/Client.antt =====
-- The methods of `PooledClient` (eth/client.go), as the interface `Client` that a wallet is given. What
-- ethclient and rpc answer on a connection, and the encodings of go-ethereum, are parameters. The
-- subscription to logs is in Eth/Subscription.
pub mod Status
pub mod Answers
pub mod Reports
mod Tests
use developer_gateway.Prelude.{
  ℕ, ◌*◌, ◌+◌, ◌-◌, ◌^◌, Bool, true, false, Option, none, some, List, ◌⊎◌, inl, inr, String, leb,
  ltb, ◌==◌, ◌&&◌, if◌then◌else◌,
}
use Prim.Native.Char.{Char, code}
use Prim.Native.String.{◌++◌}
use developer_gateway.Eth.{
  PublicKey, SendTransactionResponse, EthError, other_error, Transaction, Receipt, EthClient,
}
use developer_gateway.Concurrent.Retry.{RetryConfig}
use developer_gateway.Eth.Pool.{UniDialer, request}

-- `sendTransactionResponseDeserialize` of eth/entity.go
pub record RawResponse : Type 0 where
  pub output : String
  pub status : String
  pub hash : String

-- What a node answers on a connection: `ethClient`, and `CallContext` of `rpcClient` with the method it is
-- given; an error is its text. With them rlp.EncodeToBytes and hexutil.Encode.
pub record NodeServices (N : Type 0) : Type 0 where
  pub dial_websocket : N → Option String × N
  pub estimate_gas : (from to : String) (payload : List ℕ) (conn : ℕ) → N → (ℕ ⊎ String) × N
  pub balance_at : (account : String) (conn : ℕ) → N → (ℕ ⊎ String) × N
  pub nonce_at : (account : String) (conn : ℕ) → N → (ℕ ⊎ String) × N
  pub code_at : (account : String) (conn : ℕ) → N → (List ℕ ⊎ String) × N
  pub transaction_receipt : (hash : String) (conn : ℕ) → N → (Receipt ⊎ String) × N
  pub call_expiry : (method address : String) (conn : ℕ) → N → (ℕ ⊎ String) × N
  pub call_public_key : (method address : String) (conn : ℕ) → N → (PublicKey ⊎ String) × N
  pub call_transaction : (method payload : String) (conn : ℕ) → N → (RawResponse ⊎ String) × N
  pub encode_transaction : Transaction → List ℕ ⊎ String
  pub encode_hex : List ℕ → String

-- A digit of `strconv.ParseUint` in base 16.
abbrev pub hex_digit : Char → Option ℕ
hex_digit ch =
    let c = code ch in
    if leb 48 c && leb c 57
    then some (c - 48)
    else if leb 97 c && leb c 102
    then some (c - 87)
    else if leb 65 c && leb c 70
    then some (c - 55)
    else none

-- The loop of `strconv.ParseUint` in base 16 with 64 bits: a number of 2⁶⁰ or more has no room for one
-- more digit.
unfoldable pub parse_digits : (n : ℕ) → String → Option ℕ
parse_digits n String.[] = some n
parse_digits n (String.◌∷◌ ch rest) = elim (hex_digit ch) as (λ _. Option ℕ) [
  | none ↦ none
  | some d ↦ elim (leb (2 ^ 60) n) [ true ↦ none | false ↦ parse_digits (n * 16 + d) rest ]
]

unfoldable pub parse_uint : String → Option ℕ
parse_uint String.[] = none
parse_uint (String.◌∷◌ ch rest) = parse_digits 0 (String.◌∷◌ ch rest)

-- `strings.TrimPrefix` of "0x"
unfoldable pub trim_prefix : String → String
trim_prefix String.[] = String.[]
trim_prefix (String.◌∷◌ a String.[]) = String.◌∷◌ a String.[]
trim_prefix (String.◌∷◌ a (String.◌∷◌ b rest)) =
    if code a == 48 && code b == 120 then rest else String.◌∷◌ a (String.◌∷◌ b rest)

-- The end of `SendTransaction`; the text of an error is without that of its cause.
unfoldable pub read_response : RawResponse ⊎ EthError → SendTransactionResponse ⊎ EthError
read_response (inr e) = inr e
read_response (inl res) = elim (parse_uint (trim_prefix res.status)) [
  | none ↦ inr (other_error "Failed to parse tx status")
  | some status ↦ inl (record { output = res.output; status = status; hash = res.hash })
]

module _ {N : Type 0} (node : NodeServices N) (retry_config : RetryConfig)
    (spread : ℕ → ℕ → ℕ) where
  -- `request` of this client
  abbrev pub on_node :
      {V : Type 0} → (ℕ → N → (V ⊎ String) × N) → UniDialer N → (V ⊎ EthError) × UniDialer N
  on_node fn p = request node.dial_websocket fn retry_config spread p

  -- `SendTransaction`
  unfoldable pub send_pooled :
      Transaction → UniDialer N → (SendTransactionResponse ⊎ EthError) × UniDialer N
  send_pooled tx p = elim (node.encode_transaction tx) [
    | inr text ↦ (inr (other_error ("Failed to encode transaction: " ++ text)), p)
    | inl bytes ↦
        let (answer, p') =
          on_node (node.call_transaction "oasis_invoke" (node.encode_hex bytes)) p in
        (read_response answer, p')
  ]

  -- `GetCode`
  unfoldable pub get_code_pooled :
      (address : String) → UniDialer N → (String ⊎ EthError) × UniDialer N
  get_code_pooled address p =
      let (answer, p') = on_node (node.code_at address) p in
      (elim answer [ inl code ↦ inl (node.encode_hex code) | inr e ↦ inr e ], p')

  -- The other methods hand on what the node answers.
  unfoldable pub estimate_gas_pooled :
      (from to : String) (payload : List ℕ) → UniDialer N → (ℕ ⊎ EthError) × UniDialer N
  estimate_gas_pooled from to payload = on_node (node.estimate_gas from to payload)

  unfoldable pub balance_at_pooled : (account : String) → UniDialer N → (ℕ ⊎ EthError) × UniDialer N
  balance_at_pooled account = on_node (node.balance_at account)

  unfoldable pub get_expiry_pooled : (address : String) → UniDialer N → (ℕ ⊎ EthError) × UniDialer N
  get_expiry_pooled address = on_node (node.call_expiry "oasis_getExpiry" address)

  unfoldable pub get_public_key_pooled :
      (address : String) → UniDialer N → (PublicKey ⊎ EthError) × UniDialer N
  get_public_key_pooled address = on_node (node.call_public_key "oasis_getPublicKey" address)

  unfoldable pub nonce_at_pooled : (account : String) → UniDialer N → (ℕ ⊎ EthError) × UniDialer N
  nonce_at_pooled account = on_node (node.nonce_at account)

  unfoldable pub transaction_receipt_pooled :
      (hash : String) → UniDialer N → (Receipt ⊎ EthError) × UniDialer N
  transaction_receipt_pooled hash = on_node (node.transaction_receipt hash)

  -- The interface `Client`
  abbrev pub pooled_client : EthClient (UniDialer N)
  pooled_client = record {
    estimate_gas = estimate_gas_pooled;
    get_expiry = get_expiry_pooled;
    get_public_key = get_public_key_pooled;
    nonce_at = nonce_at_pooled;
    send_transaction = send_pooled;
    transaction_receipt = transaction_receipt_pooled;
    balance_at = balance_at_pooled;
    get_code = get_code_pooled;
  }
