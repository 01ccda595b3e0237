-- ===== src/Backend/Requests/Subscribe.antt =====
-- `Subscribe` and `Unsubscribe` of backend/core/manager.go.
use developer_gateway.Prelude.{
  ℕ, ◌≡◌, refl, true, false, some, String, ◌⊎◌, inl, inr, ◌∷◌, if◌then◌else◌, same, has, remove,
  has-remove_self, same_refl,
}
use developer_gateway.Errors.{Error, Outcome, ok, err, panic, new}
use developer_gateway.Errors.Internal.{err_queue_discard}
use developer_gateway.Errors.Request.{err_invalid_key, err_subscription_not_found}
use developer_gateway.Backend.Queues.{Queues}
use developer_gateway.Backend.Subscriptions.{
  Manager, Answer, create, destroy, incr_subscriptions, decr_subscriptions, remove_key, done,
}
use developer_gateway.Backend.Requests.{
  State, Services, SubscribeRequest, UnsubscribeRequest, sub_id, subinfo_id, next_id,
}

create-fresh :
    (key : String) (m : Manager)
    → has key m.subs ≡ false
    → same key "" ≡ false
    → create m key
      ≡ (ok done, record { subs = key ∷ m.subs; metrics = incr_subscriptions m.metrics })
unfolding create
create-fresh key m fresh whole = rw (fresh, whole) refl

destroy-active :
    {Q : Type 0} (queues : Queues Q) (key : String) (m : Manager) (q : Q)
    → has key m.subs ≡ true
    → destroy queues m key q ≡ (
      ok done,
      (
        record { subs = remove key m.subs; metrics = decr_subscriptions m.metrics },
        (queues.remove_queue key q).1,
      ),
    )
unfolding destroy remove_key
destroy-active queues key m q active = rw active refl

next_id-reserved :
    {Q C : Type 0} (services : Services Q C) (key : String) (s : State Q C) (id : ℕ) (queue : Q)
    → services.queues.next key s.queue ≡ (inl id, queue)
    → next_id services key s ≡ (ok id, record s { queue = queue })
unfolding next_id
next_id-reserved services key s id queue reserved = rw reserved refl

module _ {Q C : Type 0} (services : Services Q C) where
  -- The method `subscribe`, with the channel left out.
  unfoldable pub subscribe_id :
      (id : ℕ) → SubscribeRequest → State Q C → Outcome (Unit {0}) × State Q C
  subscribe_id id req s =
      let key : String = sub_id services req.session_key id in
      let (created, subman) = create s.subman key in
      let (accepted, client) =
        services.backend.subscribe_request
          (record { event = req.event; address = req.address; sub_id = key; topics = req.topics })
          s.client in
      elim created [
        | ok _ ↦ (
          elim accepted [ inl _ ↦ ok tt | inr e ↦ err e ],
          record s { subman = subman; client = client },
        )
        | err e ↦ (err e, record s { subman = subman })
        | panic ↦ (panic, record s { subman = subman })
      ]

  unfoldable pub subscribe : SubscribeRequest → State Q C → Outcome ℕ × State Q C
  subscribe req s =
      let (reserved, s') = next_id services (subinfo_id req.session_key) s in
      if same req.session_key ""
      then (err (new err_invalid_key (some "key cannot be empty")), s)
      else elim reserved [
        | err e ↦ (err e, s')
        | panic ↦ (panic, s')
        | ok id ↦
            let (out, s'') = subscribe_id id req s' in
            (elim out [ ok _ ↦ ok id | err e ↦ err e | panic ↦ panic ], s'')
      ]

  unfoldable pub forget_subscription : String → ℕ → Q → (Unit {0} ⊎ String) × Q
  forget_subscription session_key id =
      services.queues.discard
        (record { keep_previous = true; count = 1; offset = id; key = subinfo_id session_key })

  -- The rest of `Unsubscribe` once the entry of the subscription is discarded.
  unfoldable pub end_subscription : String → State Q C → Outcome Answer × State Q C
  end_subscription key s =
      let (left, client) = services.backend.unsubscribe_request key s.client in
      let (out, (subman, queue)) = destroy services.queues s.subman key s.queue in
      if has key s.subman.subs
      then elim left [
        | inr e ↦ (err e, record s { client = client })
        | inl _ ↦ (out, record { queue = queue; client = client; subman = subman })
      ]
      else (
        err (
            new err_subscription_not_found
              (some "cannot unsubscribe from subscription that does not exist")),
        s,
      )

  unfoldable pub unsubscribe : UnsubscribeRequest → State Q C → Outcome Answer × State Q C
  unsubscribe req s =
      let (discarded, queue) = forget_subscription req.session_key req.id s.queue in
      let s' : State Q C = record s { queue = queue } in
      if same req.session_key ""
      then (err (new err_invalid_key (some "key cannot be empty")), s)
      else elim discarded [
        | inr e ↦ (err (new err_queue_discard (some e)), s')
        | inl _ ↦ end_subscription (sub_id services req.session_key req.id) s'
      ]

  subscribe_id-refused :
      (req : SubscribeRequest) (s : State Q C) (id : ℕ) (e : Error) (client : C)
      → same (sub_id services req.session_key id) "" ≡ false
      → has (sub_id services req.session_key id) s.subman.subs ≡ false
      → services.backend.subscribe_request
          (record {
            event = req.event;
            address = req.address;
            sub_id = sub_id services req.session_key id;
            topics = req.topics;
          })
          s.client
        ≡ (inr e, client)
      → subscribe_id id req s ≡ (
        err e,
        record s {
          client = client;
          subman = record {
            subs = sub_id services req.session_key id ∷ s.subman.subs;
            metrics = incr_subscriptions s.subman.metrics;
          };
        },
      )
  unfolding subscribe_id
  subscribe_id-refused req s id e client whole fresh refused =
      let created = create-fresh (sub_id services req.session_key id) s.subman fresh whole in
      rw (subscribe_id, created, created, refused) refl

  -- If the session key is not empty, an id is handed out whose key is neither empty nor active, and
  -- the client refuses the subscription, then Subscribe returns the client's error, and the
  -- subscription is active all the same.
  pub refused_subscription_stays :
      (req : SubscribeRequest) (s : State Q C) (id : ℕ) (queue : Q) (e : Error) (client : C)
      → same req.session_key "" ≡ false
      → same (sub_id services req.session_key id) "" ≡ false
      → has (sub_id services req.session_key id) s.subman.subs ≡ false
      → services.queues.next (subinfo_id req.session_key) s.queue ≡ (inl id, queue)
      → services.backend.subscribe_request
          (record {
            event = req.event;
            address = req.address;
            sub_id = sub_id services req.session_key id;
            topics = req.topics;
          })
          s.client
        ≡ (inr e, client)
      → ((subscribe req s).0 ≡ err e)
        × (has (sub_id services req.session_key id) (subscribe req s).1.subman.subs ≡ true)
  unfolding subscribe
  refused_subscription_stays req s id queue e client named whole fresh reserved refused =
      let s' : State Q C = record s { queue = queue } in
      let key : String = sub_id services req.session_key id in
      let stays : same key key ≡ true = same_refl key in
      let asked = next_id-reserved services (subinfo_id req.session_key) s id queue reserved in
      let left = subscribe_id-refused req s' id e client whole fresh refused in
      rw (named, asked, asked, left) (refl, rw stays refl)

  -- If the session key is not empty, the discard succeeds and the client agrees, then Unsubscribe of
  -- an active subscription succeeds, removes the queue of the subscription, and the subscription is
  -- no longer active.
  unsubscribe_ends :
      (req : UnsubscribeRequest) (s : State Q C) (queue : Q) (client : C)
      → same req.session_key "" ≡ false
      → forget_subscription req.session_key req.id s.queue ≡ (inl tt, queue)
      → has (sub_id services req.session_key req.id) s.subman.subs ≡ true
      → services.backend.unsubscribe_request (sub_id services req.session_key req.id) s.client
        ≡ (inl tt, client)
      → ((unsubscribe req s).0 ≡ ok done)
        × ((unsubscribe req s).1.queue
            ≡ (services.queues.remove_queue (sub_id services req.session_key req.id) queue).1)
        × (has (sub_id services req.session_key req.id) (unsubscribe req s).1.subman.subs ≡ false)
  unfolding unsubscribe end_subscription
  unsubscribe_ends req s queue client named discarded active left =
      rw
        (
          discarded,
          named,
          active,
          left,
          discarded,
          destroy-active services.queues (sub_id services req.session_key req.id) s.subman queue
              active,
        )
        (refl, refl, has-remove_self (sub_id services req.session_key req.id) s.subman.subs)
