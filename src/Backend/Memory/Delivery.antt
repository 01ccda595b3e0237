-- ===== src/Backend/Memory/Delivery.antt =====
-- The composition of backend/core/manager.go with mqueue/mem: a client that polls for the identifier of its
-- request finds the response.
use mathlib.Core.Path.{subst}
use developer_gateway.Prelude.{
  ℕ, ◌+◌, ◌^◌, ◌≤◌, ◌<◌, ◌≡◌, refl, sym, ap, ◌∙◌, Bool, true, false, none, some, List, [], ◌∷◌,
  String, ◌⊎◌, inl, same, arith,
}
use developer_gateway.Errors.{Error, ok, map_ok}
use developer_gateway.Mqueue.{
  Element, Elements, insert_request, retrieve_request, discard_request, next_request, nothing,
  found, reserved_offset,
}
use developer_gateway.Mqueue.Window.{Window}
use developer_gateway.Mqueue.Window.Queue
use developer_gateway.Mqueue.Window.Queue.{Queue}
use developer_gateway.Mqueue.Window.Refine.{Represents, IsSmall}
use developer_gateway.Mqueue.Handler.Serve.{serve}
use developer_gateway.Mqueue.Server.{master_request, worker_of}
use developer_gateway.Backend.Events.{
  IsCodec, Event, ExecuteServiceResponse, make_element, deserialize_element,
  deserialize_element-make_element,
}
use developer_gateway.Backend.Requests.{
  Services, State, ExecuteServiceRequest, PollServiceRequest, next_id, event_of,
  execute_service_async, execute_service_job,
}
use developer_gateway.Backend.Requests.Jobs.{executed, execute_answers}
use developer_gateway.Backend.Requests.Poll.{poll, poll_service, deserialize_all}
use developer_gateway.Backend.Memory.{memory_queues, as_unit, as_offset, as_elements}
use developer_gateway.Backend.Memory.Answers.{
  request_refines, HasRoom, next_offset, WithEntry, next_hands_out, insert_completes, retrieve_last,
  slide_last,
}

module _ {C : Type 0} (given : Services (List (String × Window)) C)
    (error_text : Error → String) where
  abbrev on_memory : Services (List (String × Window)) C
  on_memory = record given { queues = memory_queues error_text }

  -- The worker of the key hands out the next offset.
  offset_handed_out :
      (key : String) (ws : List (String × Window)) (q : Queue)
      → Represents (worker_of key ws) q
      → IsSmall q
      → HasRoom q
      → (as_offset error_text (master_request key next_request ws).0 ≡ inl (next_offset q))
        × Represents (worker_of key (master_request key next_request ws).1) (Queue.next q).1
  unfolding serve
  offset_handed_out key ws q rep small room =
      let (same, rep') = request_refines key next_request ws q rep small tt in
      (
        ap (as_offset error_text)
            (same ∙ ap (map_ok reserved_offset) (next_hands_out q room rep.room).0),
        rep',
      )

  -- The worker of the key takes the element of the offset that it has handed out last.
  element_stored :
      (key : String) (ws : List (String × Window)) (q q' : Queue) (el : Element)
      → Represents (worker_of key ws) q'
      → IsSmall q'
      → WithEntry q none q'
      → el.offset ≡ next_offset q
      → el.offset < 2 ^ 64
      → (as_unit error_text (master_request key (insert_request el) ws).0 ≡ inl tt)
        × Represents
            (worker_of key (master_request key (insert_request el) ws).1)
            (Queue.insert q' (next_offset q) el.type el.value).1
  unfolding serve
  element_stored key ws q q' el rep small entry at word =
      let (same, rep') = request_refines key (insert_request el) ws q' rep small word in
      let completed = insert_completes q q' el.type el.value entry in
      (
        ap (as_unit error_text) (
            same
            ∙ ap (λ n. map_ok (λ _. nothing) (Queue.insert q' n el.type el.value).0) at
            ∙ ap (map_ok (λ _. nothing)) completed.0),
        subst
            (λ n.
              Represents (worker_of key (master_request key (insert_request el) ws).1)
                (Queue.insert q' n el.type el.value).1)
            at rep',
      )

  -- The worker of the key gives back the element of its last offset.
  element_found :
      (key : String) (ws : List (String × Window)) (q q' : Queue) (el : Element) (count : ℕ)
      → Represents (worker_of key ws) q'
      → IsSmall q'
      → WithEntry q (some (el.type, el.value)) q'
      → el.offset ≡ next_offset q
      → 1 ≤ count
      → count + next_offset q < 2 ^ 64
      → as_elements error_text (master_request key (retrieve_request (next_offset q) count) ws).0
        ≡ inl (record { offset = q.base; elements = el ∷ [] })
  unfolding serve
  element_found key ws q q' el count rep small entry at asked word =
      let (same, rep') =
        request_refines key (retrieve_request (next_offset q) count) ws q' rep small word in
      let listed = retrieve_last q q' el.type el.value count entry asked in
      let element : ℕ → Elements =
        λ n. record { offset = q.base; elements = (record el { offset = n }) ∷ [] } in
      ap (as_elements error_text) (same ∙ ap (λ es. ok (found es)) (listed ∙ ap element (sym at)))

  -- After a retrieve, the worker of the key gives up what comes before its last offset.
  previous_discarded :
      (key : String) (ws : List (String × Window)) (q q' : Queue) (t v : String) (count : ℕ)
      → Represents (worker_of key ws) q'
      → IsSmall q'
      → WithEntry q (some (t, v)) q'
      → count + next_offset q < 2 ^ 64
      → as_unit error_text
          (master_request key
            (discard_request false 0 (next_offset q))
            (master_request key (retrieve_request (next_offset q) count) ws).1).0
        ≡ inl tt
  unfolding serve
  previous_discarded key ws q q' t v count rep small entry word =
      let after = (master_request key (retrieve_request (next_offset q) count) ws).1 in
      let kept =
        (request_refines key (retrieve_request (next_offset q) count) ws q' rep small word).1 in
      let (same, rep') =
        request_refines key (discard_request false 0 (next_offset q)) after q' kept small
          (refl, omega (arith, word)) in
      let (n, slid) = slide_last q q' t v entry in
      ap (as_unit error_text) (same ∙ ap (map_ok (λ _. nothing)) slid)

  -- A request to execute a service gets the offset of its session's queue, and its state then.
  execute_service_async-offset :
      (req : ExecuteServiceRequest) (s : State (List (String × Window)) C) (n : ℕ)
      → same req.address "" ≡ false
      → as_offset error_text (master_request req.session_key next_request s.queue).0 ≡ inl n
      → execute_service_async on_memory req s
        ≡ (ok n, record s { queue = (master_request req.session_key next_request s.queue).1 })
  unfolding execute_service_async next_id
  execute_service_async-offset req s n addressed handed =
      rw (execute_service_async, addressed, next_id, handed) refl

  poll_service-found :
      (key : String) (n count base : ℕ) (discard_previous : Bool) (ws : List (String × Window))
      (el : Element) (ev : Event)
      → as_elements error_text (master_request key (retrieve_request n count) ws).0
        ≡ inl (record { offset = base; elements = el ∷ [] })
      → as_unit error_text
          (master_request key
            (discard_request false 0 n)
            (master_request key (retrieve_request n count) ws).1).0
        ≡ inl tt
      → deserialize_element given.json el ≡ ok ev
      → (poll_service on_memory
          (record {
            offset = n;
            count = count;
            discard_previous = discard_previous;
            session_key = key;
          })
          ws).0
        ≡ ok (record { offset = base; events = ev ∷ [] })
  unfolding poll_service poll deserialize_all
  poll_service-found key n count base true ws el ev retrieved discarded read =
      simp (poll_service, poll, retrieved, discarded, deserialize_all, read) refl
  poll_service-found key n count base false ws el ev retrieved discarded read =
      rw (poll_service, poll, retrieved, deserialize_all, read) refl

  -- The requests that a client makes, and the end of its request in between: the offset that it is
  -- given, the end of the job, and what it polls.
  abbrev pub Delivers :
      ExecuteServiceRequest
      → (n base count : ℕ) (discard_previous : Bool) → Event
      → State (List (String × Window)) C
      → Type 0
  Delivers req n base count discard_previous ev s =
      let asked = execute_service_async on_memory req s in
      let answered = execute_service_job on_memory req n asked.1 in
      (asked.0 ≡ ok n)
      × (answered.0 ≡ ok tt)
      × ((poll_service on_memory
            (record {
              offset = n;
              count = count;
              discard_previous = discard_previous;
              session_key = req.session_key;
            })
            answered.1.queue).0
          ≡ ok (record { offset = base; events = ev ∷ [] }))

  -- If what is encoded decodes to itself, and the window of the session represents a queue that has room,
  -- far from the end of the 64-bit words: a request to execute a service with an address is given the
  -- next offset of the queue. After its job, whose event can be encoded, a poll from that offset on
  -- for at least one element, which may discard the previous ones, returns exactly this event: the response
  -- of the backend, or an error event with the code and the description of its error.
  pub response_is_polled :
      IsCodec given.json
      → (req : ExecuteServiceRequest) (s : State (List (String × Window)) C) (q : Queue)
        (answer : ExecuteServiceResponse ⊎ Error) (client : C) (el : Element) (count : ℕ)
        (discard_previous : Bool)
      → same req.address "" ≡ false
      → Represents (worker_of req.session_key s.queue) q
      → q.most < 2 ^ 63
      → next_offset q + count + q.most < 2 ^ 64
      → HasRoom q
      → given.backend.execute_request (next_offset q) req s.client ≡ (answer, client)
      → make_element given.json
          (event_of on_memory (next_offset q) (executed on_memory answer))
          (next_offset q)
        ≡ some el
      → 1 ≤ count
      → Delivers req
          (next_offset q)
          q.base
          count
          discard_previous
          (event_of on_memory (next_offset q) (executed on_memory answer))
          s
  response_is_polled codec req s q answer client el count discard_previous addressed rep most small
        room answered made asked =
      let n = next_offset q in
      let key = req.session_key in
      let ev = event_of on_memory n (executed on_memory answer) in
      let at = (deserialize_element-make_element given.json codec ev n el made).0 in
      let (handed, rep1) = offset_handed_out key s.queue q rep (most, omega (arith, small)) room in
      let pending = (next_hands_out q room rep.room).1 in
      let q1 = (Queue.next q).1 in
      let ws1 = (master_request key next_request s.queue).1 in
      let s1 : State (List (String × Window)) C = record s { queue = ws1 } in
      let (stored, rep2) =
        element_stored key ws1 q q1 el rep1
          (omega (arith, pending.1, most), omega (arith, pending.0, pending.1, small)) pending at
          (omega (arith, at, small)) in
      let done = (insert_completes q q1 el.type el.value pending).1 in
      let ws2 = (master_request key (insert_request el) ws1).1 in
      let (runs, _, read) =
        execute_answers on_memory codec req n s1 answer client el ws2 answered made
          (ap (λ r. (r, ws2)) stored) in
      let small2 : IsSmall (Queue.insert q1 n el.type el.value).1 =
        (omega (arith, done.1, most), omega (arith, done.0, done.1, small)) in
      let discarded =
        previous_discarded key ws2 q (Queue.insert q1 n el.type el.value).1 el.type el.value count
          rep2 small2 done (omega (arith, small)) in
      let retrieved =
        element_found key ws2 q (Queue.insert q1 n el.type el.value).1 el count rep2 small2 done at
          asked (omega (arith, small)) in
      let starts = execute_service_async-offset req s n addressed handed in
      let polled : PollServiceRequest = record {
        offset = n;
        count = count;
        discard_previous = discard_previous;
        session_key = key;
      } in
      let found_again =
        poll_service-found key n count q.base discard_previous ws2 el ev retrieved discarded read in
      let (ended, shown) =
        subst
          (λ p.
            ((execute_service_job on_memory req n p.1).0 ≡ ok tt)
            × ((poll_service on_memory polled (execute_service_job on_memory req n p.1).1.queue).0
                ≡ ok (record { offset = q.base; events = ev ∷ [] })))
          (sym starts)
          (subst
            (λ p.
              (p.0 ≡ ok tt)
              × ((poll_service on_memory polled p.1.queue).0
                  ≡ ok (record { offset = q.base; events = ev ∷ [] })))
            (sym runs) (refl, found_again)) in
      (ap (λ p. p.0) starts, ended, shown)
