-- ===== src/Backend/Requests/Poll.antt =====
-- `PollService`, `PollEvent` and `poll` of backend/core/manager.go.
use developer_gateway.Prelude.{
  ℕ, ◌≡◌, refl, Bool, true, false, some, List, [], ◌∷◌, String, inl, inr, ◌==◌, ◌&&◌, if◌then◌else◌,
  Bool-cases,
}
use developer_gateway.Errors.{Outcome, ok, err, panic, new, map_ok}
use developer_gateway.Errors.Internal.{err_queue_discard, err_queue_retrieve, err_queue_exists}
use developer_gateway.Mqueue.{Element, Elements}
use developer_gateway.Backend.Events.{
  Json, IsCodec, Event, Events, make_element, deserialize_element, deserialize_element-make_element,
}
use developer_gateway.Backend.Requests.{Services, PollServiceRequest, PollEventRequest, sub_id}
use developer_gateway.Backend.Requests.Subscribe.{forget_subscription}

-- The loop of `poll` over the elements; it stops at the first that cannot be decoded.
unfoldable pub deserialize_all : Json → List Element → Outcome (List Event)
deserialize_all json [] = ok []
deserialize_all json (el ∷ els) =
    let rest = deserialize_all json els in
    elim (deserialize_element json el) [
      | ok ev ↦ map_ok (λ evs. ev ∷ evs) rest
      | err e ↦ err e
      | panic ↦ panic
    ]

module _ {Q C : Type 0} (services : Services Q C) where
  unfoldable pub poll :
      (key : String) (offset count : ℕ) (discard_previous : Bool) → Q → Outcome Events × Q
  poll key offset count discard_previous q =
      let (retrieved, q') = services.queues.retrieve key offset count q in
      let (discarded, q'') =
        services.queues.discard
          (record { keep_previous = false; count = 0; offset = offset; key = key }) q' in
      elim retrieved [
        | inr e ↦ (err (new err_queue_retrieve (some e)), q')
        | inl els ↦
            let out =
              map_ok (λ evs. record { offset = els.offset; events = evs })
                (deserialize_all services.json els.elements) in
            if discard_previous
            then elim discarded [
              | inr e ↦ (err (new err_queue_discard (some e)), q'')
              | inl _ ↦ (out, q'')
            ]
            else (out, q')
      ]

  unfoldable pub poll_service : PollServiceRequest → Q → Outcome Events × Q
  poll_service req = poll req.session_key req.offset req.count req.discard_previous

  abbrev pub no_events : Events → Bool
  no_events evs = (evs.offset == 0) && elim evs.events [ [] ↦ true | _ ∷ _ ↦ false ]

  -- The check of `PollEvent` that the subscription exists.
  unfoldable pub check_subscription : PollEventRequest → Events → Q → Outcome Events × Q
  check_subscription req evs q =
      let (exists, q') = services.queues.exists_queue (sub_id services req.session_key req.id) q in
      let (discarded, q'') = forget_subscription services req.session_key req.id q' in
      elim exists [
        | inr e ↦ (err (new err_queue_exists (some e)), q')
        | inl true ↦ (ok evs, q')
        | inl false ↦
            (elim discarded [ inr e ↦ err (new err_queue_discard (some e)) | inl _ ↦ ok evs ], q'')
      ]

  unfoldable pub poll_event : PollEventRequest → Q → Outcome Events × Q
  poll_event req q =
      let (polled, q') =
        poll (sub_id services req.session_key req.id) req.offset req.count req.discard_previous q in
      elim polled [
        | err e ↦ (err e, q')
        | panic ↦ (panic, q')
        | ok evs ↦
            let checked = check_subscription req evs q' in
            if no_events evs then checked else (ok evs, q')
      ]

  -- The elements are made of the events, in order.
  abbrev AreMade : List Element → List Event → Type 0
  AreMade [] [] = Unit
  AreMade (el ∷ els) (ev ∷ evs) =
      ((n : ℕ) × (make_element services.json ev n ≡ some el)) × AreMade els evs
  AreMade _ _ = ⊥

  deserialize_all-made :
      IsCodec services.json
      → (els : List Element) (evs : List Event) → AreMade els evs
      → deserialize_all services.json els ≡ ok evs
  unfolding deserialize_all
  deserialize_all-made codec [] [] made = refl
  deserialize_all-made codec [] (ev ∷ evs) made = absurd made
  deserialize_all-made codec (el ∷ els) [] made = absurd made
  deserialize_all-made codec (el ∷ els) (ev ∷ evs) made =
      let read = deserialize_element-make_element services.json codec ev made.0.0 el made.0.1 in
      rw (deserialize_all, read.1, deserialize_all-made codec els evs made.1) refl

  -- If the queue returns elements that were made of events, what is encoded decodes to itself, and
  -- the discard succeeds where it is asked for, then PollService returns these events, in order,
  -- with the offset of the queue.
  poll_service_returns :
      IsCodec services.json
      → (req : PollServiceRequest) (q q' q'' : Q) (els : Elements) (evs : List Event)
      → AreMade els.elements evs
      → services.queues.retrieve req.session_key req.offset req.count q ≡ (inl els, q')
      → services.queues.discard
          (record { keep_previous = false; count = 0; offset = req.offset; key = req.session_key })
          q'
        ≡ (inl tt, q'')
      → poll_service req q ≡ (
        ok (record { offset = els.offset; events = evs }),
        if req.discard_previous then q'' else q',
      )
  unfolding poll_service poll
  poll_service_returns codec req q q' q'' els evs made retrieved discarded =
      let read = deserialize_all-made codec els.elements evs made in
      elim (Bool-cases req.discard_previous) [
        | inl e ↦
            rw (poll_service, poll, retrieved, e, retrieved, discarded, read, retrieved, discarded)
              refl
        | inr e ↦ rw (poll_service, poll, retrieved, e, retrieved, read) refl
      ]
