-- ===== src/Mqueue/Redis/Numbers.antt =====
-- The offsets that the scripts of mqueue/redis/redis.lua hand out, and what is stored at them.
use developer_gateway.Prelude.{
  ℕ, zero, suc, ◌+◌, ◌-◌, ◌≤◌, ◌<◌, ◌≡◌, refl, sym, ap, ap₂, ◌∙◌, min, Bool, true, false, some,
  List, [], ◌∷◌, ◌++◌, String, ltb, ◌==◌, length, get_elem?, set, take, drop, same_refl,
  if◌then◌else◌, inl, arith, length-append, length-set,
}
use developer_gateway.Mqueue.Redis.{
  Slot, status, number, payloads, ok, TextCodec, set_elements, first_offset, redis_next,
  redis_insert, redis_retrieve,
}
use developer_gateway.Mqueue.Redis.Scripts.{
  Server, Lists, empty_slot, base_of, mqbasenlen, mqnext, mqinsert, mqretrieve, eval,
}

first_of :
    (xs : List Slot)
    → ◌≡◌ {A = ℕ × ℕ}
        (if ltb 0 (length xs) then (base_of (get_elem? xs 0), length xs) else (0, 0))
        (first_offset xs, length xs)
first_of [] = refl
first_of (x ∷ xs) = let more : ltb 0 (length (x ∷ xs)) ≡ true = ground arith in rw more refl

module _ {Q : Type 0} (redis : Server Q) (lists : Lists redis) where
  open lists use {
    view, exists_view, llen_view, lindex_view, rpush_length, rpush_view, lset_view, lrange_view,
  }

  pub base_and_length :
      (key : String) (q : Q)
      → mqbasenlen redis key q ≡ (first_offset (view key q), length (view key q))
  unfolding mqbasenlen
  base_and_length key q = rw (llen_view key q, lindex_view key 0 q) (first_of (view key q))

  -- The next offset is the one after the last, and a payload that is not set is kept for it.
  next_appends :
      (key : String) (q : Q)
      → mqnext redis key q ≡ (
        number (first_offset (view key q) + length (view key q)),
        (redis.rpush key (empty_slot (first_offset (view key q) + length (view key q))) q).1,
      )
  unfolding mqnext
  next_appends key q =
      let there = base_and_length key q in
      let pushed =
        rpush_length key (empty_slot (first_offset (view key q) + length (view key q))) q in
      let same_length : (length (view key q) + 1 == length (view key q) + 1) ≡ true =
        ground arith in
      simp (mqnext, there, pushed, same_length) refl

  insert_sets :
      (key : String) (offset : ℕ) (type value : String) (q : Q)
      → first_offset (view key q) ≤ offset
      → offset < first_offset (view key q) + length (view key q)
      → mqinsert redis key offset type value q ≡ (
        status "OK",
        redis.lset key
            (offset - first_offset (view key q))
            (record {
              set_flag = true;
              offset = offset;
              value_type = type;
              value = value;
              discarded = false;
            })
            q,
      )
  unfolding mqinsert
  insert_sets key offset type value q above below =
      let there = base_and_length key q in
      let up : ltb offset (first_offset (view key q)) ≡ false = ground (arith, above) in
      let within : ltb (offset - first_offset (view key q)) (length (view key q)) ≡ true =
        ground (arith, above, below) in
      simp (mqinsert, there, up, within) refl

  pub retrieve_ranges :
      (key : String) (offset count : ℕ) (q : Q)
      → 0 < length (view key q)
      → mqretrieve redis key offset count q ≡ (
        payloads (
            redis.lrange key
              (min (offset - first_offset (view key q)) (length (view key q)))
              (min (offset + count - first_offset (view key q)) (length (view key q)))
              q),
        q,
      )
  unfolding mqretrieve
  retrieve_ranges key offset count q some_slot =
      let there = base_and_length key q in
      let is_there : (redis.exists key q == 0) ≡ false =
        exists_view key q
        ∙ (let more : (length (view key q) == 0) ≡ false = ground (arith, some_slot) in more) in
      simp (mqretrieve, there, is_there) refl

-- The last of a list, after its payload is replaced.
last_set :
    (xs : List Slot) (s s' : Slot)
    → drop (length xs) (set (xs ++ (s ∷ [])) (length xs) s') ≡ s' ∷ []
last_set [] s s' = refl
last_set (x ∷ xs) s s' = last_set xs s s'

first_offset-set :
    (xs : List Slot) (s s' : Slot)
    → s.offset ≡ s'.offset
    → first_offset (set (xs ++ (s ∷ [])) (length xs) s') ≡ first_offset (xs ++ (s ∷ []))
first_offset-set [] s s' e = sym e
first_offset-set (x ∷ xs) s s' e = refl

-- The offset after the last one is that of a payload that is appended.
first_offset-append :
    (xs : List Slot)
    → first_offset (xs ++ (empty_slot (first_offset xs + length xs) ∷ [])) ≡ first_offset xs
first_offset-append [] = refl
first_offset-append (x ∷ xs) = refl

take_only : (k : ℕ) (s : Slot) → 0 < k → take k (s ∷ []) ≡ s ∷ []
take_only zero s h = absurd (omega arith)
take_only (suc zero) s h = refl
take_only (suc (suc k)) s h = refl

abbrev filled_slot : (offset : ℕ) (type serialized : String) → Slot
filled_slot offset type serialized = record {
  set_flag = true;
  offset = offset;
  value_type = type;
  value = serialized;
  discarded = false;
}

module _ {Q : Type 0} (redis : Server Q) (lists : Lists redis) (json : TextCodec)
    (bool_text : Bool → String) (key : String) (q : Q) where
  open lists use {view, rpush_view, lset_view, lrange_view}

  abbrev handed : ℕ
  handed = first_offset (view key q) + length (view key q)

  -- The server after Next, and after Insert.
  abbrev after_next : Q
  after_next = (redis.rpush key (empty_slot handed) q).1

  next_hands_out : redis_next json (eval redis bool_text) key q ≡ (ok handed, after_next)
  unfolding redis_next eval
  next_hands_out = simp (redis_next, eval, next_appends redis lists key q) refl

  base_stays : first_offset (view key after_next) ≡ first_offset (view key q)
  base_stays =
      ap first_offset (rpush_view key (empty_slot handed) q) ∙ first_offset-append (view key q)

  one_longer : length (view key after_next) ≡ length (view key q) + 1
  one_longer =
      ap length (rpush_view key (empty_slot handed) q)
      ∙ length-append (view key q) (empty_slot handed ∷ [])

  module _ (type serialized : String) where
    abbrev slot : Slot
    slot = filled_slot handed type serialized

    abbrev after_insert : Q
    after_insert = redis.lset key (handed - first_offset (view key after_next)) slot after_next

    insert_at_last :
        (value : String)
        → json.marshal value ≡ inl serialized
        → redis_insert json
            (eval redis bool_text)
            key
            (record { offset = handed; value = value; type = type })
            after_next
          ≡ (ok tt, after_insert)
    unfolding redis_insert eval
    insert_at_last value encoded =
        let base = base_stays in
        let longer = one_longer in
        let run =
          insert_sets redis lists key handed type serialized after_next (omega (arith, base))
            (omega (arith, base, longer)) in
        simp (redis_insert, encoded, eval, run, same_refl "OK") refl

    view_after :
        view key after_insert
        ≡ set (view key q ++ (empty_slot handed ∷ [])) (length (view key q)) slot
    view_after =
        let base = base_stays in
        let index : handed - first_offset (view key after_next) ≡ length (view key q) =
          omega (arith, base) in
        lset_view key (handed - first_offset (view key after_next)) slot after_next
        ∙ ap₂ (λ xs i. set xs i slot) (rpush_view key (empty_slot handed) q) index

    base_after : first_offset (view key after_insert) ≡ first_offset (view key q)
    base_after =
        ap first_offset view_after
        ∙ first_offset-set (view key q) (empty_slot handed) slot refl
        ∙ first_offset-append (view key q)

    length_after : length (view key after_insert) ≡ length (view key q) + 1
    length_after =
        ap length view_after
        ∙ length-set (view key q ++ (empty_slot handed ∷ [])) (length (view key q)) slot
        ∙ length-append (view key q) (empty_slot handed ∷ [])

    range_after :
        (stop : ℕ)
        → length (view key q) ≤ stop
        → redis.lrange key (length (view key q)) stop after_insert ≡ slot ∷ []
    range_after stop h =
        lrange_view key (length (view key q)) stop after_insert
        ∙ ap (λ xs. take (stop + 1 - length (view key q)) (drop (length (view key q)) xs))
            view_after
        ∙ ap (take (stop + 1 - length (view key q)))
            (last_set (view key q) (empty_slot handed) slot)
        ∙ take_only (stop + 1 - length (view key q)) slot (omega arith)

    retrieve_last :
        (value : String) (count : ℕ)
        → json.unmarshal serialized ≡ some value
        → redis_retrieve json (eval redis bool_text) key handed count after_insert ≡ (
          ok (record {
            offset = handed;
            elements = record { offset = handed; value = value; type = type } ∷ [];
          }),
          after_insert,
        )
    unfolding redis_retrieve eval set_elements
    retrieve_last value count decoded =
        let base = base_after in
        let longer = length_after in
        let run =
          retrieve_ranges redis lists key handed count after_insert (omega (arith, longer)) in
        let start : min (handed - first_offset (view key after_insert))
              (length (view key after_insert))
            ≡ length (view key q) =
          omega (arith, base, longer) in
        let stop =
          min (handed + count - first_offset (view key after_insert))
            (length (view key after_insert)) in
        let far : length (view key q) ≤ stop = omega (arith, base, longer) in
        let range : redis.lrange key
              (min (handed - first_offset (view key after_insert)) (length (view key after_insert)))
              stop after_insert
            ≡ slot ∷ [] =
          ap (λ n. redis.lrange key n stop after_insert) start ∙ range_after stop far in
        simp (redis_retrieve, eval, run, range, set_elements, decoded) refl

module _ {Q : Type 0} (redis : Server Q) (lists : Lists redis) (json : TextCodec)
    (bool_text : Bool → String) where
  open lists use {view, rpush_view, lset_view, lrange_view}

  -- If what encoding/json makes of a text is read back as the text, then the offset that Next returns is
  -- the one after the last of the queue, an element is inserted at it, and Retrieve from it on returns
  -- just the element.
  pub inserted_is_retrieved :
      (key type value serialized : String) (count : ℕ) (q : Q)
      → json.marshal value ≡ inl serialized
      → json.unmarshal serialized ≡ some value
      → (offset : ℕ) × (q1 : Q) × (q2 : Q) × (offset
          ≡ first_offset (view key q) + length (view key q))
        × (redis_next json (eval redis bool_text) key q ≡ (ok offset, q1))
        × (redis_insert json
              (eval redis bool_text)
              key
              (record { offset = offset; value = value; type = type })
              q1
            ≡ (ok tt, q2))
        × (redis_retrieve json (eval redis bool_text) key offset count q2 ≡ (
          ok (record {
            offset = offset;
            elements = record { offset = offset; value = value; type = type } ∷ [];
          }),
          q2,
        ))
  inserted_is_retrieved key type value serialized count q encoded decoded = (
    first_offset (view key q) + length (view key q),
    after_next redis lists json bool_text key q,
    after_insert redis lists json bool_text key q type serialized,
    refl,
    next_hands_out redis lists json bool_text key q,
    insert_at_last redis lists json bool_text key q type serialized value encoded,
    retrieve_last redis lists json bool_text key q type serialized value count decoded,
  )
