-- ===== src/Backend/Ethereum.antt =====
-- `Client` of backend/eth/client.go, the backend on an Ethereum node: the checks of the requests, and the
-- calls of the node, of the executor of transactions (tx/executor.go), and of the manager of
-- subscriptions (eth/subscription.go). The instrumentation returns what it instruments.
pub mod Wallet
mod Tests
use Prim.Native.String.{len}
use developer_gateway.Prelude.{
  ℕ, Bool, true, false, Option, none, some, List, [], ◌∷◌, ◌⊎◌, inl, inr, String, ◌==◌,
  if◌then◌else◌, same,
}
use developer_gateway.Errors.{Error, new}
use developer_gateway.Errors.Internal.{err_internal_error}
use developer_gateway.Errors.Request.{
  err_invalid_address, err_string_not_hex, err_topic_logs_supported,
}
use developer_gateway.Eth.{EthError, PublicKey}
use developer_gateway.Tx.{ExecuteRequest, ExecuteResponse}
use developer_gateway.Backend.Events.{ExecuteServiceResponse, DeployServiceResponse}
use developer_gateway.Backend.Requests.{
  Client, ExecuteServiceRequest, DeployServiceRequest, CreateSubscriptionRequest, GetCodeResponse,
  GetExpiryResponse, GetPublicKeyResponse,
}

-- What the client stands on, with a state `X`: `hexutil.Decode`, the texts of its wrapped errors, the
-- calls of the node, the executor, and the manager of subscriptions, whose failures are texts.
pub record EthereumServices (X : Type 0) : Type 0 where
  pub decode_hex : String → List ℕ ⊎ String
  pub failure_text : (doing address : String) → EthError → String
  pub get_code : (address : String) → X → (String ⊎ EthError) × X
  pub get_expiry : (address : String) → X → (ℕ ⊎ EthError) × X
  pub get_public_key : (address : String) → X → (PublicKey ⊎ EthError) × X
  pub execute : ExecuteRequest → X → (ExecuteResponse ⊎ Error) × X
  pub create : (key : String) (addresses topics : List String) → X → Option String × X
  pub destroy : (key : String) → X → Option String × X

module _ {X : Type 0} (services : EthereumServices X) where
  -- `verifyAddress`
  unfoldable pub verify_address : String → Option Error
  verify_address address =
      let decoded = elim (services.decode_hex address) as (λ _. Option Error) [
        | inl bytes ↦ none
        | inr text ↦ some (new err_invalid_address (some text))
      ] in
      if len address == 42
      then decoded
      else some (new err_invalid_address (some "Address hex should be 42 bytes long"))

  -- `decodeBytes`
  unfoldable pub decode_bytes : String → List ℕ ⊎ Error
  decode_bytes text = elim (services.decode_hex text) [
    | inl bytes ↦ inl bytes
    | inr cause ↦ inr (new err_string_not_hex (some cause))
  ]

  unfoldable pub get_code : String → X → (GetCodeResponse ⊎ Error) × X
  get_code address x =
      let (answer, x') = services.get_code address x in
      elim (verify_address address) [
        | some e ↦ (inr e, x)
        | none ↦ (
          elim answer [
            | inl code ↦ inl (record { address = address; code = code })
            | inr e ↦
                inr (new err_internal_error (some (services.failure_text "get code" address e)))
          ],
          x',
        )
      ]

  unfoldable pub get_expiry : String → X → (GetExpiryResponse ⊎ Error) × X
  get_expiry address x =
      let (answer, x') = services.get_expiry address x in
      elim (verify_address address) [
        | some e ↦ (inr e, x)
        | none ↦ (
          elim answer [
            | inl expiry ↦ inl (record { address = address; expiry = expiry })
            | inr e ↦
                inr (new err_internal_error (some (services.failure_text "get expiry" address e)))
          ],
          x',
        )
      ]

  unfoldable pub get_public_key : String → X → (GetPublicKeyResponse ⊎ Error) × X
  get_public_key address x =
      let (answer, x') = services.get_public_key address x in
      elim (verify_address address) [
        | some e ↦ (inr e, x)
        | none ↦ (
          elim answer [
            | inl pk ↦ inl (record {
              timestamp = pk.timestamp;
              address = address;
              public_key = pk.public_key;
              signature = pk.signature;
            })
            | inr e ↦
                inr
                  (new err_internal_error (some (services.failure_text "get public key" address e)))
          ],
          x',
        )
      ]

  -- `deployService`, with `executeTransaction`
  unfoldable pub deploy_service :
      (id : ℕ) → DeployServiceRequest → X → (DeployServiceResponse ⊎ Error) × X
  deploy_service id req x = elim (decode_bytes req.input) [
    | inr e ↦ (inr e, x)
    | inl bytes ↦
        let (answer, x') =
          services.execute (record { aad = req.aad; id = id; address = ""; payload = bytes }) x in
        (elim answer [ inl r ↦ inl (record { id = id; address = r.address }) | inr e ↦ inr e ], x')
  ]

  -- `executeService` after its check of the address, with `executeTransaction`
  unfoldable pub execute_verified :
      (id : ℕ) → ExecuteServiceRequest → X → (ExecuteServiceResponse ⊎ Error) × X
  execute_verified id req x = elim (decode_bytes req.input) [
    | inr e ↦ (inr e, x)
    | inl bytes ↦
        let (answer, x') =
          services.execute
            (record { aad = req.aad; id = id; address = req.address; payload = bytes }) x in
        (
          elim answer [
            | inl r ↦ inl (record { id = id; address = r.address; output = r.output })
            | inr e ↦ inr e
          ],
          x',
        )
  ]

  unfoldable pub execute_service :
      (id : ℕ) → ExecuteServiceRequest → X → (ExecuteServiceResponse ⊎ Error) × X
  execute_service id req x = elim (verify_address req.address) [
    | some e ↦ (inr e, x)
    | none ↦ execute_verified id req x
  ]

  unfoldable pub subscribe_request : CreateSubscriptionRequest → X → (Unit {0} ⊎ Error) × X
  subscribe_request req x =
      let addresses = if same req.address "" then [] else req.address ∷ [] in
      let (refusal, x') = services.create req.sub_id addresses req.topics x in
      if same req.event "logs"
      then (
        elim refusal [ none ↦ inl tt | some text ↦ inr (new err_internal_error (some text)) ],
        x',
      )
      else (inr (new err_topic_logs_supported none), x)

  unfoldable pub unsubscribe_request : (sub_id : String) → X → (Unit {0} ⊎ Error) × X
  unsubscribe_request sub_id x =
      let (refusal, x') = services.destroy sub_id x in
      (elim refusal [ none ↦ inl tt | some text ↦ inr (new err_internal_error (some text)) ], x')

  -- The client that the request manager is given.
  unfoldable ethereum_client : Client X
  ethereum_client = record {
    get_code = get_code;
    get_expiry = get_expiry;
    get_public_key = get_public_key;
    execute_request = execute_service;
    deploy_request = deploy_service;
    subscribe_request = subscribe_request;
    unsubscribe_request = unsubscribe_request;
  }
