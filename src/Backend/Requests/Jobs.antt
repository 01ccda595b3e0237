-- ===== src/Backend/Requests/Jobs.antt =====
-- The goroutines of backend/core/manager.go that end an asynchronous request.
use developer_gateway.Prelude.{ℕ, ◌≡◌, refl, some, String, ◌⊎◌, inl, inr}
use developer_gateway.Errors.{Error, ok}
use developer_gateway.Mqueue.{Element}
use developer_gateway.Backend.Events.{
  IsCodec, Event, execute_service, ExecuteServiceResponse, make_element, deserialize_element,
  deserialize_element-make_element,
}
use developer_gateway.Backend.Requests.{
  Services, State, ExecuteServiceRequest, event_of, do_request, execute_service_job,
}

module _ {Q C : Type 0} (services : Services Q C) where
  do_request-inserts :
      (key : String) (id : ℕ) (result : Event ⊎ Error) (el : Element) (q q' : Q)
      → make_element services.json (event_of services id result) id ≡ some el
      → services.queues.insert key el q ≡ (inl tt, q')
      → do_request services key id result q ≡ (ok tt, q')
  unfolding do_request
  do_request-inserts key id result el q q' made inserted = rw (do_request, made, inserted) refl

  abbrev pub executed : ExecuteServiceResponse ⊎ Error → Event ⊎ Error
  executed (inl r) = inl (execute_service r)
  executed (inr e) = inr e

  job_runs :
      (req : ExecuteServiceRequest) (id : ℕ) (s : State Q C)
      (answer : ExecuteServiceResponse ⊎ Error) (client : C) (el : Element) (q' : Q)
      → services.backend.execute_request id req s.client ≡ (answer, client)
      → make_element services.json (event_of services id (executed answer)) id ≡ some el
      → services.queues.insert req.session_key el s.queue ≡ (inl tt, q')
      → execute_service_job services req id s ≡ (ok tt, record s { queue = q'; client = client })
  unfolding execute_service_job
  job_runs req id s (inl r) client el q' answered made inserted =
      let stored =
        do_request-inserts req.session_key id (executed (inl r)) el s.queue q' made inserted in
      rw (execute_service_job, answered, stored) refl
  job_runs req id s (inr e) client el q' answered made inserted =
      let stored =
        do_request-inserts req.session_key id (executed (inr e)) el s.queue q' made inserted in
      rw (execute_service_job, answered, stored) refl

  -- If the queue takes the element, the goroutine of ExecuteServiceAsync puts one element into the
  -- queue of the session, at the offset that the client was given: it is read back as the response
  -- of the backend, or as an error event with the code and the description of the backend's error.
  pub execute_answers :
      IsCodec services.json
      → (req : ExecuteServiceRequest) (id : ℕ) (s : State Q C)
        (answer : ExecuteServiceResponse ⊎ Error) (client : C) (el : Element) (q' : Q)
      → services.backend.execute_request id req s.client ≡ (answer, client)
      → make_element services.json (event_of services id (executed answer)) id ≡ some el
      → services.queues.insert req.session_key el s.queue ≡ (inl tt, q')
      → (execute_service_job services req id s ≡ (ok tt, record s { queue = q'; client = client }))
        × (el.offset ≡ id)
        × (deserialize_element services.json el ≡ ok (event_of services id (executed answer)))
  execute_answers codec req id s answer client el q' answered made inserted =
      let read =
        deserialize_element-make_element services.json codec
          (event_of services id (executed answer)) id el made in
      (job_runs req id s answer client el q' answered made inserted, read.0, read.1)
