-- ===== src/Api/Event.antt =====
-- `EventHandler` of api/v0/event/handler.go, over the request manager of backend/core. `parse_query` is
-- `url.ParseQuery`: the values of a query with their names, in order, or the text of an error.
use developer_gateway.Prelude.{
  ℕ, Bool, Option, none, some, List, [], ◌∷◌, String, ◌⊎◌, inl, inr, if◌then◌else◌, same,
}
use developer_gateway.Errors.{Outcome, ok, err, panic, new}
use developer_gateway.Errors.Request.{err_empty_input, err_parse_query_params}
use developer_gateway.Backend.Events.{
  Event, error, log_data, deploy_service, execute_service, ErrorEvent, DataEvent,
}
use developer_gateway.Backend.Subscriptions.{Answer}
use developer_gateway.Backend.Requests.{Services, State}
use developer_gateway.Backend.Requests.Subscribe.{subscribe, unsubscribe}
use developer_gateway.Backend.Requests.Poll.{poll_event}
use developer_gateway.Api.Service.{count_or_ten}

-- The events of api/v0/event/entity.go
pub data StreamEvent : Type 0 where
  error_event : ErrorEvent → StreamEvent
  data_event : DataEvent → StreamEvent

pub record EventPoll : Type 0 where
  pub offset : ℕ
  pub events : List StreamEvent

-- `PollEventRequest`
pub record EventPollRequest : Type 0 where
  pub offset : ℕ
  pub count : ℕ
  pub discard_previous : Bool
  pub id : ℕ

-- The cases of `PollEvent`; none is its panic.
abbrev stream_event : Event → Option StreamEvent
stream_event (error r) = some (error_event r)
stream_event (log_data r) = some (data_event r)
stream_event (deploy_service r) = none
stream_event (execute_service r) = none

unfoldable stream_events : List Event → Option (List StreamEvent)
stream_events [] = some []
stream_events (ev ∷ evs) =
    let rest = stream_events evs in
    elim (stream_event ev) [
      | none ↦ none
      | some e ↦ elim rest as (λ _. Option (List StreamEvent)) [
        | none ↦ none
        | some es ↦ some (e ∷ es)
      ]
    ]

-- `query.Get` and `query[name]`
abbrev first_value : (name : String) → List (String × String) → String
first_value name [] = ""
first_value name ((n, v) ∷ vs) = let rest = first_value name vs in if same name n then v else rest

abbrev all_values : (name : String) → List (String × String) → List String
all_values name [] = []
all_values name ((n, v) ∷ vs) =
    let rest = all_values name vs in if same name n then v ∷ rest else rest

module _ {Q C : Type 0} (services : Services Q C)
    (parse_query : String → List (String × String) ⊎ String) where
  -- `Subscribe`, for the events and the filter of a request
  unfoldable handle_subscribe :
      (session : String) (events : List String) (filter : String)
      → State Q C
      → Outcome ℕ × State Q C
  handle_subscribe session [] filter s =
      (err (new err_empty_input (some "no events set on request")), s)
  handle_subscribe session (event ∷ []) filter s = elim (parse_query filter) [
    | inr text ↦ (err (new err_parse_query_params (some text)), s)
    | inl query ↦
        subscribe services
          (record {
            event = event;
            address = first_value "address" query;
            session_key = session;
            topics = all_values "topic" query;
          })
          s
  ]
  handle_subscribe session (event ∷ (other ∷ events)) filter s =
      (err (new err_empty_input (some "only one event supported")), s)

  -- `Unsubscribe`
  unfoldable handle_unsubscribe :
      (session : String) (id : ℕ) → State Q C → Outcome Answer × State Q C
  handle_unsubscribe session id s =
      unsubscribe services (record { id = id; session_key = session }) s

  -- `PollEvent`
  unfoldable handle_poll_event : (session : String) → EventPollRequest → Q → Outcome EventPoll × Q
  handle_poll_event session req q =
      let (polled, q') =
        poll_event services
          (record {
            offset = req.offset;
            count = count_or_ten req.count;
            discard_previous = req.discard_previous;
            id = req.id;
            session_key = session;
          })
          q in
      (
        elim polled [
          | err e ↦ err e
          | panic ↦ panic
          | ok evs ↦ elim (stream_events evs.events) as (λ _. Outcome EventPoll) [
            | none ↦ panic
            | some es ↦ ok (record { offset = evs.offset; events = es })
          ]
        ],
        q',
      )
