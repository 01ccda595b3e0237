-- ===== src/Backend/Tests.antt =====
-- The package backend/core over a small queue and a small client, and the theorems at such inputs.
use developer_gateway.Prelude.{
  ℕ, ◌+◌, ◌≡◌, refl, true, Option, none, some, List, [], ◌∷◌, ◌++◌, length, String, inl, inr, ◌==◌,
  ◌&&◌, if◌then◌else◌, same, same→≡, has, arith,
}
use developer_gateway.Errors.{Error, err, new}
use developer_gateway.Errors.Request.{err_subscribe_filter_address, err_subscription_already_exists}
use developer_gateway.Mqueue.{Element}
use developer_gateway.Backend.Queues.{Queues}
use developer_gateway.Backend.Events.{
  Json, IsCodec, Event, deploy_service, execute_service, error, log_data, DeployServiceResponse,
  ExecuteServiceResponse, DataEvent, make_element, event_type,
}
use developer_gateway.Backend.Subscriptions.{
  create_subscription, destroy_subscription, exists_subscription, stats_request, ManagerRequest,
  new_manager, run, create,
}
use developer_gateway.Backend.Subscriptions.Registry.{serve_all, empty_registry}
use developer_gateway.Backend.Subscriptions.Refine.{manager_refines}
use developer_gateway.Backend.Requests.{
  Client, Services, State, ExecuteServiceRequest, SubscribeRequest, UnsubscribeRequest, sub_id,
}
use developer_gateway.Backend.Requests.Subscribe.{subscribe, refused_subscription_stays}

-- One queue for all keys, which keeps what is inserted.
abbrev queues : Queues (List Element)
queues = record {
  insert = λ key el q. (inl tt, q ++ (el ∷ []));
  retrieve = λ key offset count q. (inl (record { offset = offset; elements = q }), q);
  discard = λ req q. (inl tt, if req.keep_previous then q else []);
  next = λ key q. (inl (length q), q);
  remove_queue = λ key q. (inl tt, []);
  exists_queue = λ key q. (inl true, q);
}

-- A codec for the events with the id 0 and with the address, or the topics, that are expected.
abbrev marshal_event : Event → Option String
marshal_event (deploy_service r) = if r.id == 0 then some r.address else none
marshal_event (execute_service r) =
    if (r.id == 0) && same r.address "service" then some r.output else none
marshal_event (error e) = none
marshal_event (log_data d) =
    if d.id == 0 then elim d.topics [ [] ↦ some d.data_hex | _ ∷ _ ↦ none ] else none

abbrev pub json : Json
json = record {
  marshal = marshal_event;
  unmarshal_deploy = λ s. inl (record { id = 0; address = s });
  unmarshal_execute = λ s. inl (record { id = 0; address = "service"; output = s });
  unmarshal_error = λ s. inr "unknown error";
  unmarshal_data = λ s. inl (record { id = 0; data_hex = s; topics = [] });
}

deploy_law :
    (r : DeployServiceResponse) (s : String)
    → marshal_event (deploy_service r) ≡ some s
    → json.unmarshal_deploy s ≡ inl r
deploy_law r s h = ground arith

execute_law :
    (r : ExecuteServiceResponse) (s : String)
    → marshal_event (execute_service r) ≡ some s
    → json.unmarshal_execute s ≡ inl r
execute_law r s h = ground (arith, same→≡ r.address "service")

data_law :
    (d : DataEvent) (s : String)
    → marshal_event (log_data d) ≡ some s
    → json.unmarshal_data s ≡ inl d
data_law d s h = ground arith

pub json-IsCodec : IsCodec json
json-IsCodec = record {
  deploy = deploy_law;
  execute = execute_law;
  error_event = λ e s h. absurd (ground arith);
  log = data_law;
}

abbrev refusal : Error
refusal = new err_subscribe_filter_address none

-- A client that counts the calls and refuses subscriptions.
abbrev pub client : Client ℕ
client = record {
  get_code = λ a n. (inl (record { address = a; code = "" }), n + 1);
  get_expiry = λ a n. (inl (record { address = a; expiry = 0 }), n + 1);
  get_public_key = λ a n. (inr refusal, n + 1);
  execute_request =
      λ id req n. (inl (record { id = id; address = req.address; output = "0x01" }), n + 1);
  deploy_request = λ id req n. (inl (record { id = id; address = "new" }), n + 1);
  subscribe_request = λ req n. (inr refusal, n + 1);
  unsubscribe_request = λ key n. (inl tt, n + 1);
}

abbrev pub services : Services (List Element) ℕ
services = record { queues = queues; backend = client; json = json; decimal = λ n. "0" }

abbrev pub state : State (List Element) ℕ
state = record { queue = []; client = 0; subman = new_manager }

abbrev requests : List ManagerRequest
requests =
    create_subscription "a"
    ∷ create_subscription "b"
    ∷ create_subscription "a"
    ∷ stats_request
    ∷ destroy_subscription "a"
    ∷ exists_subscription "a"
    ∷ exists_subscription "b"
    ∷ stats_request
    ∷ []

manager_refines_example :
    (run queues requests (new_manager, [])).0 ≡ serve_all requests empty_registry
unfolding same
manager_refines_example =
    manager_refines queues requests [] (refl, (refl, (refl, (tt, (tt, (tt, (tt, (tt, tt))))))))

second_creation_is_refused :
    (create (create new_manager "a").1 "a").0
    ≡ err (
        new err_subscription_already_exists
          (some "attempt to create subscription with existing key"))
unfolding create same new_manager
second_creation_is_refused = refl

abbrev deployed : Event
deployed = deploy_service (record { id = 0; address = "service" })

abbrev deployed_element : Element
deployed_element = record { offset = 3; value = "service"; type = "deployServiceEventType" }

deployed_is_made : make_element json deployed 3 ≡ some deployed_element
unfolding make_element event_type
deployed_is_made = refl

abbrev subscribe_request : SubscribeRequest
subscribe_request = record { event = "logs"; address = "service"; session_key = "s"; topics = [] }

refused_subscription_stays_example :
    ((subscribe services subscribe_request state).0 ≡ err refusal)
    × (has (sub_id services "s" 0) (subscribe services subscribe_request state).1.subman.subs
        ≡ true)
unfolding same sub_id new_manager
refused_subscription_stays_example =
    refused_subscription_stays services subscribe_request state 0 [] refusal 1 refl refl refl refl
      refl

abbrev unsubscribe_request : UnsubscribeRequest
unsubscribe_request = record { id = 0; session_key = "s" }

abbrev pub execute_request : ExecuteServiceRequest
execute_request = record { aad = ""; input = "0x"; address = "service"; session_key = "s" }

abbrev pub executed_event : Event
executed_event = execute_service (record { id = 0; address = "service"; output = "0x01" })

abbrev pub executed_element : Element
executed_element = record { offset = 0; value = "0x01"; type = "executeServiceEventType" }

pub executed_is_made : make_element json executed_event 0 ≡ some executed_element
unfolding make_element event_type same
executed_is_made = refl
