-- ===== src/Api/Service.antt =====
-- `ServiceHandler` of api/v0/service/handler.go, over the request manager of backend/core. The AAD and the
-- session are those that the authentication has put into the context; `verify` is the method of the
-- verifier, which fails with a text, and `decode_hex` is `hex.Decode`.
use developer_gateway.Prelude.{
  ℕ, ◌≡◌, Bool, false, Option, none, some, List, [], ◌∷◌, String, ◌==◌, if◌then◌else◌, same,
}
use developer_gateway.Errors.{Outcome, ok, err, panic, new}
use developer_gateway.Errors.Request.{err_invalid_address, err_failed_aad_verification}
use developer_gateway.Auth.{AuthRequest}
use developer_gateway.Api.Message.{parse_execute_message}
use developer_gateway.Backend.Events.{
  Event, deploy_service, execute_service, error, log_data, DeployServiceResponse,
  ExecuteServiceResponse, ErrorEvent,
}
use developer_gateway.Backend.Requests.{
  Services, State, GetCodeResponse, GetExpiryResponse, GetPublicKeyResponse, get_code, get_expiry,
  get_public_key, execute_service_async, deploy_service_async,
}
use developer_gateway.Backend.Requests.Poll.{poll_service}

-- The events of api/v0/service/entity.go
pub data ServiceEvent : Type 0 where
  error_event : ErrorEvent → ServiceEvent
  execute_service_event : ExecuteServiceResponse → ServiceEvent
  deploy_service_event : DeployServiceResponse → ServiceEvent

pub record ServicePoll : Type 0 where
  pub offset : ℕ
  pub events : List ServiceEvent

-- `PollServiceRequest`
pub record ServicePollRequest : Type 0 where
  pub offset : ℕ
  pub count : ℕ
  pub discard_previous : Bool

-- `mapEvent`; none is its panic.
abbrev map_event : Event → Option ServiceEvent
map_event (error r) = some (error_event r)
map_event (execute_service r) = some (execute_service_event r)
map_event (deploy_service r) = some (deploy_service_event r)
map_event (log_data r) = none

-- The loop of `PollService`
unfoldable map_events : List Event → Option (List ServiceEvent)
map_events [] = some []
map_events (ev ∷ evs) =
    let rest = map_events evs in
    elim (map_event ev) [
      | none ↦ none
      | some e ↦ elim rest as (λ _. Option (List ServiceEvent)) [
        | none ↦ none
        | some es ↦ some (e ∷ es)
      ]
    ]

-- A count of zero asks for ten.
abbrev pub count_or_ten : ℕ → ℕ
count_or_ten count = if count == 0 then 10 else count

module _ {Q C : Type 0} (services : Services Q C)
    (verify : (aad : String) → AuthRequest → Option String)
    (decode_hex : String → Option (List ℕ)) where
  -- `DeployService`
  unfoldable handle_deploy : (aad session input : String) → State Q C → Outcome ℕ × State Q C
  handle_deploy aad session input s =
      let started =
        deploy_service_async services (record { aad = aad; input = input; session_key = session })
          s in
      let asked : AuthRequest = record {
        api = "Deploy";
        address = "";
        aad_bytes = [];
        pk = [];
        payload = input;
      } in
      elim (verify aad asked) [
        | some text ↦ (err (new err_failed_aad_verification (some text)), s)
        | none ↦ started
      ]

  -- `ExecuteService` on the request for the verifier; none is a panic of `parseExecuteMessage`.
  unfoldable pub handle_parsed :
      (aad session address input : String) → Option AuthRequest → State Q C → Outcome ℕ × State Q C
  handle_parsed aad session address input none s = (panic, s)
  handle_parsed aad session address input (some asked) s =
      let started =
        execute_service_async services
          (record { aad = aad; input = input; address = address; session_key = session }) s in
      elim (verify aad asked) [
        | some text ↦ (err (new err_failed_aad_verification (some text)), s)
        | none ↦ started
      ]

  -- `ExecuteService`
  unfoldable pub handle_execute :
      (aad session address input : String) → State Q C → Outcome ℕ × State Q C
  handle_execute aad session address input s =
      let parsed = parse_execute_message address input (decode_hex input) in
      let handled = handle_parsed aad session address input parsed s in
      if same address "" then (err (new err_invalid_address none), s) else handled

  -- `PollService`
  unfoldable handle_poll : (session : String) → ServicePollRequest → Q → Outcome ServicePoll × Q
  handle_poll session req q =
      let (polled, q') =
        poll_service services
          (record {
            offset = req.offset;
            count = count_or_ten req.count;
            discard_previous = req.discard_previous;
            session_key = session;
          })
          q in
      (
        elim polled [
          | err e ↦ err e
          | panic ↦ panic
          | ok evs ↦ elim (map_events evs.events) as (λ _. Outcome ServicePoll) [
            | none ↦ panic
            | some es ↦ ok (record { offset = evs.offset; events = es })
          ]
        ],
        q',
      )

  -- `GetCode`, `GetExpiry` and `GetPublicKey`: an empty address is refused here and by the manager.
  unfoldable handle_get_code : (address : String) → State Q C → Outcome GetCodeResponse × State Q C
  handle_get_code address s =
      let answered = get_code services address s in
      if same address ""
      then (err (new err_invalid_address (some "address field has not been set")), s)
      else answered

  unfoldable handle_get_expiry :
      (address : String) → State Q C → Outcome GetExpiryResponse × State Q C
  handle_get_expiry address s =
      let answered = get_expiry services address s in
      if same address ""
      then (err (new err_invalid_address (some "address field has not been set")), s)
      else answered

  unfoldable handle_get_public_key :
      (address : String) → State Q C → Outcome GetPublicKeyResponse × State Q C
  handle_get_public_key address s =
      let answered = get_public_key services address s in
      if same address ""
      then (err (new err_invalid_address (some "address field has not been set")), s)
      else answered

  -- The verifier has accepted what the parser finds in the request, which has an address.
  abbrev pub IsAccepted : (aad address input : String) → Type 0
  IsAccepted aad address input =
      (asked : AuthRequest) × (parse_execute_message address input (decode_hex input) ≡ some asked)
      × (verify aad asked ≡ none)
      × (same address "" ≡ false)

  abbrev IsRefusal : Outcome ℕ → Type 0
  IsRefusal (ok id) = ⊥
  IsRefusal _ = Unit

  abbrev pub IsRefused : (aad session address input : String) → State Q C → Type 0
  IsRefused aad session address input s =
      ((handle_execute aad session address input s).1 ≡ s)
      × IsRefusal (handle_execute aad session address input s).0
