-- ===== src/Backend/Requests.antt =====
-- `RequestManager` of backend/core/manager.go, with the requests of backend/core/entity.go. A
-- goroutine that a method starts is a method of its own here, with `_job` in its name.

pub mod Subscribe
pub mod Poll
pub mod Jobs
use Prim.Native.String
use developer_gateway.Prelude.{
  ℕ, Bool, true, false, Option, none, some, List, [], ◌∷◌, String, ◌⊎◌, inl, inr, ◌==◌, ◌&&◌,
  if◌then◌else◌, same,
}
use developer_gateway.Errors.{Error, Outcome, ok, err, panic, new, map_ok}
use developer_gateway.Errors.Internal.{
  err_queue_next, err_queue_discard, err_queue_retrieve, err_queue_exists,
}
use developer_gateway.Errors.Request.{
  err_invalid_address, err_invalid_key, err_subscription_not_found,
}
use developer_gateway.Mqueue.{Element, Elements}
use developer_gateway.Backend.Queues.{Queues, DiscardRequest}
use developer_gateway.Backend.Events.{
  Json, Event, Events, execute_service, deploy_service, error, ExecuteServiceResponse,
  DeployServiceResponse, make_element, deserialize_element,
}
use developer_gateway.Backend.Subscriptions.{Manager, Answer, create, destroy}
use developer_gateway.Prelude.{has}

pub record ExecuteServiceRequest : Type 0 where
  pub aad : String
  pub input : String
  pub address : String
  pub session_key : String

pub record DeployServiceRequest : Type 0 where
  pub aad : String
  pub input : String
  pub session_key : String

pub record SubscribeRequest : Type 0 where
  pub event : String
  pub address : String
  pub session_key : String
  pub topics : List String

pub record UnsubscribeRequest : Type 0 where
  pub id : ℕ
  pub session_key : String

pub record CreateSubscriptionRequest : Type 0 where
  pub event : String
  pub address : String
  pub sub_id : String
  pub topics : List String

pub record PollServiceRequest : Type 0 where
  pub offset : ℕ
  pub count : ℕ
  pub discard_previous : Bool
  pub session_key : String

pub record PollEventRequest : Type 0 where
  pub offset : ℕ
  pub count : ℕ
  pub discard_previous : Bool
  pub id : ℕ
  pub session_key : String

pub record GetCodeResponse : Type 0 where
  pub address : String
  pub code : String

pub record GetExpiryResponse : Type 0 where
  pub address : String
  pub expiry : ℕ

pub record GetPublicKeyResponse : Type 0 where
  pub timestamp : ℕ
  pub address : String
  pub public_key : String
  pub signature : String

-- The interface `Client`, on the state `C` of a client; an address stands for a request of it alone.
pub record Client (C : Type 0) : Type 0 where
  pub get_code : String → C → (GetCodeResponse ⊎ Error) × C
  pub get_expiry : String → C → (GetExpiryResponse ⊎ Error) × C
  pub get_public_key : String → C → (GetPublicKeyResponse ⊎ Error) × C
  pub execute_request : ℕ → ExecuteServiceRequest → C → (ExecuteServiceResponse ⊎ Error) × C
  pub deploy_request : ℕ → DeployServiceRequest → C → (DeployServiceResponse ⊎ Error) × C
  pub subscribe_request : CreateSubscriptionRequest → C → (Unit {0} ⊎ Error) × C
  pub unsubscribe_request : (sub_id : String) → C → (Unit {0} ⊎ Error) × C

-- What the manager stands on; `decimal` is the verb `%d` of fmt.
pub record Services (Q C : Type 0) : Type 0 where
  pub queues : Queues Q
  pub backend : Client C
  pub json : Json
  pub decimal : ℕ → String

-- The fields of `RequestManager` that change.
pub record State (Q C : Type 0) : Type 0 where
  pub queue : Q
  pub client : C
  pub subman : Manager

abbrev pub subinfo_id : String → String
subinfo_id key = String.◌++◌ key ":subinfo"

module _ {Q C : Type 0} (services : Services Q C) where
  unfoldable pub sub_id : String → ℕ → String
  sub_id key id = String.◌++◌ key (String.◌++◌ ":sub:" (services.decimal id))

  -- The three requests that are passed on when there is an address.
  unfoldable pub get_code : String → State Q C → Outcome GetCodeResponse × State Q C
  get_code address s =
      let (answer, client) = services.backend.get_code address s.client in
      if same address ""
      then (err (new err_invalid_address none), s)
      else (elim answer [ inl r ↦ ok r | inr e ↦ err e ], record s { client = client })

  unfoldable pub get_expiry : String → State Q C → Outcome GetExpiryResponse × State Q C
  get_expiry address s =
      let (answer, client) = services.backend.get_expiry address s.client in
      if same address ""
      then (err (new err_invalid_address none), s)
      else (elim answer [ inl r ↦ ok r | inr e ↦ err e ], record s { client = client })

  unfoldable pub get_public_key : String → State Q C → Outcome GetPublicKeyResponse × State Q C
  get_public_key address s =
      let (answer, client) = services.backend.get_public_key address s.client in
      if same address ""
      then (err (new err_invalid_address none), s)
      else (elim answer [ inl r ↦ ok r | inr e ↦ err e ], record s { client = client })

  -- The call of `mqueue.Next` that the asynchronous requests begin with.
  unfoldable pub next_id : String → State Q C → Outcome ℕ × State Q C
  next_id key s =
      let (reserved, queue) = services.queues.next key s.queue in
      (
        elim reserved [ inl id ↦ ok id | inr e ↦ err (new err_queue_next (some e)) ],
        record s { queue = queue },
      )

  unfoldable pub execute_service_async : ExecuteServiceRequest → State Q C → Outcome ℕ × State Q C
  execute_service_async req s =
      let asked = next_id req.session_key s in
      if same req.address "" then (err (new err_invalid_address none), s) else asked

  unfoldable pub deploy_service_async : DeployServiceRequest → State Q C → Outcome ℕ × State Q C
  deploy_service_async req s = next_id req.session_key s

  abbrev pub event_of : (id : ℕ) → Event ⊎ Error → Event
  event_of id (inl ev) = ev
  event_of id (inr e) = error (record {
    id = id;
    cause = record { error_code = e.error_code.code; description = e.error_code.desc };
  })

  -- `doRequest`, after its call of `fn`.
  unfoldable pub do_request : (key : String) (id : ℕ) → Event ⊎ Error → Q → Outcome (Unit {0}) × Q
  do_request key id result q = elim (make_element services.json (event_of id result) id) [
    | none ↦ (panic, q)
    | some el ↦
        let (inserted, q') = services.queues.insert key el q in
        (elim inserted [ inl _ ↦ ok tt | inr e ↦ panic ], q')
  ]

  unfoldable pub execute_service_job :
      ExecuteServiceRequest → (id : ℕ) → State Q C → Outcome (Unit {0}) × State Q C
  execute_service_job req id s =
      let (answer, client) = services.backend.execute_request id req s.client in
      let result : Event ⊎ Error = elim answer [
        | inl r ↦ inl (execute_service r)
        | inr e ↦ inr e
      ] in
      let (out, queue) = do_request req.session_key id result s.queue in
      (out, record s { queue = queue; client = client })

  unfoldable deploy_service_job :
      DeployServiceRequest → (id : ℕ) → State Q C → Outcome (Unit {0}) × State Q C
  deploy_service_job req id s =
      let (answer, client) = services.backend.deploy_request id req s.client in
      let result : Event ⊎ Error = elim answer [ inl r ↦ inl (deploy_service r) | inr e ↦ inr e ] in
      let (out, queue) = do_request req.session_key id result s.queue in
      (out, record s { queue = queue; client = client })
