-- ===== src/Backend/Subscriptions/Delivery.antt =====
-- The goroutine of a subscription, `subscription.Start` of backend/core/subscription.go: what comes
-- on its channel is put into the queue of its key. `encode` stands for `hexutil.Encode` and for
-- `Hash.Hex` of go-ethereum.
use developer_gateway.Prelude.{ℕ, ◌≡◌, refl, none, some, List, [], ◌∷◌, map, String, inl, inr}
use developer_gateway.Errors.{ok}
use developer_gateway.Mqueue.{Element}
use developer_gateway.Backend.Queues.{Queues}
use developer_gateway.Backend.Events.{
  Json, IsCodec, log_data, DataEvent, make_element, deserialize_element,
  deserialize_element-make_element, event_type, data_event_type,
}

-- A value of the channel: a `types.Log` with its bytes, or anything else.
pub data Notice : Type 0 where
  log : (bytes : List ℕ) (topics : List (List ℕ)) → Notice
  unexpected : Notice

made :
    (json : Json) (ev : DataEvent) (id : ℕ) (text : String)
    → json.marshal (log_data ev) ≡ some text
    → make_element json (log_data ev) id
      ≡ some (record { offset = id; value = text; type = data_event_type })
unfolding make_element event_type
made json ev id text encoded = rw (make_element, encoded) refl

module _ {Q : Type 0} (encode : List ℕ → String) (json : Json) (queues : Queues Q)
    (key : String) where
  -- The cases of the loop for a value; an error is logged.
  unfoldable pub deliver : Notice → Q → Q
  deliver notice q =
      let (reserved, q') = queues.next key q in
      elim reserved [
        | inr e ↦ q'
        | inl id ↦ elim notice [
          | unexpected ↦ q'
          | log bytes topics ↦
              elim (make_element json
                (log_data (record { id = id; data_hex = encode bytes; topics = map encode topics }))
                id) [ none ↦ q' | some el ↦ (queues.insert key el q').1 ]
        ]
      ]

  unfoldable deliver_all : List Notice → Q → Q
  deliver_all [] q = q
  deliver_all (n ∷ ns) q = deliver_all ns (deliver n q)

  -- `Start`, from the first value to the stop or to the end of the channel.
  unfoldable start_subscription : List Notice → Q → Q
  start_subscription ns q = (queues.remove_queue key (deliver_all ns q)).1

  -- A log for which the queue gives out an offset, and which can be encoded, is inserted at that
  -- offset, as an element that is read back as the data event of the log with the offset as its id.
  deliver_inserts :
      (bytes : List ℕ) (topics : List (List ℕ)) (q q' : Q) (id : ℕ) (text : String)
      → IsCodec json
      → queues.next key q ≡ (inl id, q')
      → json.marshal
          (log_data (record { id = id; data_hex = encode bytes; topics = map encode topics }))
        ≡ some text
      → (el : Element) × (deliver (log bytes topics) q ≡ (queues.insert key el q').1)
        × (el.offset ≡ id)
        × (deserialize_element json el
            ≡ ok (
                log_data (record { id = id; data_hex = encode bytes; topics = map encode topics })))
  unfolding deliver
  deliver_inserts bytes topics q q' id text codec reserved encoded =
      let ev : DataEvent = record {
        id = id;
        data_hex = encode bytes;
        topics = map encode topics;
      } in
      let el : Element = record { offset = id; value = text; type = data_event_type } in
      let read =
        deserialize_element-make_element json codec (log_data ev) id el
          (made json ev id text encoded) in
      (el, rw (deliver, reserved, made json ev id text encoded, reserved) refl, read.0, read.1)
