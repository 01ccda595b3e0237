-- ===== src/Backend/Events.antt =====
-- backend/core/entity.go: the events that clients poll for, and how they are put into a queue.
use developer_gateway.Prelude.{
  ℕ, ◌≡◌, refl, Option, none, some, List, String, ◌⊎◌, inl, inr, same, if◌then◌else◌, arith,
  Option-cases,
}
use mathlib.Core.Path.{subst}
use developer_gateway.Errors.{Outcome, ok, err, new}
use developer_gateway.Errors.Internal.{err_deserialize_event, err_unkown_event_type}
use developer_gateway.Mqueue.{Element}

-- `rpc.Error`
pub record RpcError : Type 0 where
  pub error_code : ℕ
  pub description : String

pub record DeployServiceResponse : Type 0 where
  pub id : ℕ
  pub address : String

pub record ExecuteServiceResponse : Type 0 where
  pub id : ℕ
  pub address : String
  pub output : String

pub record ErrorEvent : Type 0 where
  pub id : ℕ
  pub cause : RpcError

pub record DataEvent : Type 0 where
  pub id : ℕ
  pub data_hex : String
  pub topics : List String

-- The types that implement the interface `Event`.
pub data Event : Type 0 where
  deploy_service : DeployServiceResponse → Event
  execute_service : ExecuteServiceResponse → Event
  error : ErrorEvent → Event
  log_data : DataEvent → Event

unfoldable event_id : Event → ℕ
event_id (deploy_service r) = r.id
event_id (execute_service r) = r.id
event_id (error e) = e.id
event_id (log_data d) = d.id

abbrev deploy_service_event_type : String
deploy_service_event_type = "deployServiceEventType"

abbrev execute_service_event_type : String
execute_service_event_type = "executeServiceEventType"

abbrev error_event_type : String
error_event_type = "errorEventType"

abbrev pub data_event_type : String
data_event_type = "dataEventType"

unfoldable pub event_type : Event → String
event_type (deploy_service r) = deploy_service_event_type
event_type (execute_service r) = execute_service_event_type
event_type (error e) = error_event_type
event_type (log_data d) = data_event_type

pub record Events : Type 0 where
  pub offset : ℕ
  pub events : List Event

-- The package encoding/json on these types: a text, or none if the value has none; and from a text
-- the value, or the text of the error.
pub record Json : Type 0 where
  pub marshal : Event → Option String
  pub unmarshal_deploy : String → DeployServiceResponse ⊎ String
  pub unmarshal_execute : String → ExecuteServiceResponse ⊎ String
  pub unmarshal_error : String → ErrorEvent ⊎ String
  pub unmarshal_data : String → DataEvent ⊎ String

-- Decoding at the type of a value gives back the value that was encoded.
pub record IsCodec (json : Json) : Type 0 where
  pub deploy :
      (r : DeployServiceResponse) (s : String)
      → json.marshal (deploy_service r) ≡ some s
      → json.unmarshal_deploy s ≡ inl r
  pub execute :
      (r : ExecuteServiceResponse) (s : String)
      → json.marshal (execute_service r) ≡ some s
      → json.unmarshal_execute s ≡ inl r
  pub error_event :
      (e : ErrorEvent) (s : String)
      → json.marshal (error e) ≡ some s
      → json.unmarshal_error s ≡ inl e
  pub log :
      (d : DataEvent) (s : String)
      → json.marshal (log_data d) ≡ some s
      → json.unmarshal_data s ≡ inl d

module _ (json : Json) where
  unfoldable pub make_element : Event → (offset : ℕ) → Option Element
  make_element ev offset = elim (json.marshal ev) [
    | none ↦ none
    | some p ↦ some (record { offset = offset; value = p; type = event_type ev })
  ]

-- The second half of each case of `deserializeElement`.
abbrev pub decoded : {A : Type 0} → (A → Event) → A ⊎ String → Outcome Event
decoded f (inl a) = ok (f a)
decoded f (inr e) = err (new err_deserialize_event (some e))

module _ (json : Json) where
  unfoldable pub deserialize_element : Element → Outcome Event
  deserialize_element el =
      if same el.type deploy_service_event_type
      then decoded deploy_service (json.unmarshal_deploy el.value)
      else if same el.type execute_service_event_type
      then decoded execute_service (json.unmarshal_execute el.value)
      else if same el.type error_event_type
      then decoded error (json.unmarshal_error el.value)
      else if same el.type data_event_type
      then decoded log_data (json.unmarshal_data el.value)
      else err (new err_unkown_event_type none)

-- The element of a value that is encoded as a text.
abbrev element_of : Event → (offset : ℕ) (text : String) → Element
element_of ev offset text = record { offset = offset; value = text; type = event_type ev }

reads_back :
    (json : Json)
    → IsCodec json
    → (ev : Event) (offset : ℕ) (text : String) → json.marshal ev ≡ some text
    → deserialize_element json (element_of ev offset text) ≡ ok ev
unfolding deserialize_element event_type same
reads_back json codec (deploy_service r) offset text e = rw (codec.deploy r text e) refl
reads_back json codec (execute_service r) offset text e = rw (codec.execute r text e) refl
reads_back json codec (error r) offset text e = rw (codec.error_event r text e) refl
reads_back json codec (log_data r) offset text e = rw (codec.log r text e) refl

made_of :
    (json : Json) (ev : Event) (offset : ℕ) (el : Element)
    → make_element json ev offset ≡ some el
    → (text : String) × (json.marshal ev ≡ some text) × (element_of ev offset text ≡ el)
unfolding make_element
made_of json ev offset el made = elim (Option-cases (json.marshal ev)) [
  | inl e ↦ absurd (ground (arith, e, made))
  | inr (text, e) ↦ (text, e, ground (arith, e, made))
]

-- An element that is made of an event has the given offset and is read back as the event, if
-- decoding gives back what was encoded.
pub deserialize_element-make_element :
    (json : Json)
    → IsCodec json
    → (ev : Event) (offset : ℕ) (el : Element) → make_element json ev offset ≡ some el
    → (el.offset ≡ offset) × (deserialize_element json el ≡ ok ev)
deserialize_element-make_element json codec ev offset el made =
    let (text, encoded, same_el) = made_of json ev offset el made in
    subst (λ x. (x.offset ≡ offset) × (deserialize_element json x ≡ ok ev)) same_el
      (refl, reads_back json codec ev offset text encoded)
