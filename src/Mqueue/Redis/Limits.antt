-- ===== src/Mqueue/Redis/Limits.antt =====
-- Where the queue of mqueue/redis differs from the interface of mqueue/core.
use developer_gateway.Prelude.{
  ℕ, zero, suc, ◌+◌, ◌-◌, ◌≤◌, ◌<◌, ◌≡◌, refl, ap, ap₂, ◌∙◌, min, Bool, true, false, some, List, [],
  ◌∷◌, String, ltb, ◌==◌, length, take, drop, same_refl, arith, length-take, length-drop,
  Bool-cases, inl, inr, All, All-drop,
}
use developer_gateway.Mqueue.{Element, Elements}
use developer_gateway.Mqueue.Redis.{
  Slot, ok, TextCodec, expect_elements, payloads, set_elements, first_offset, redis_retrieve,
  redis_discard,
}
use developer_gateway.Mqueue.Redis.Scripts.{Server, Lists, mqdiscard, discard_middle, eval}
use developer_gateway.Mqueue.Redis.Numbers.{base_and_length, retrieve_ranges}

module _ (json : TextCodec) where
  -- A payload that is set, and whose value is read as a text.
  abbrev IsReadable : Slot → Type 0
  IsReadable s = (s.set_flag ≡ true) × (value : String) × (json.unmarshal s.value ≡ some value)

  All-take : (n : ℕ) (xs : List Slot) → All IsReadable xs → All IsReadable (take n xs)
  All-take zero xs all = tt
  All-take (suc n) [] all = tt
  All-take (suc n) (x ∷ xs) (one, all) = (one, All-take n xs all)

  all_read :
      (xs : List Slot)
      → All IsReadable xs
      → (es : List Element) × (set_elements json xs ≡ some es) × (length es ≡ length xs)
  unfolding set_elements
  all_read [] all = ([], refl, refl)
  all_read (x ∷ xs) ((is_set, value, decoded), all) =
      let (es, runs, same_length) = all_read xs all in
      (
        record { offset = x.offset; value = value; type = x.value_type } ∷ es,
        simp (set_elements, is_set, decoded, runs) refl,
        ap suc same_length,
      )

  payloads_read :
      (slots : List Slot) (es : List Element)
      → set_elements json slots ≡ some es
      → expect_elements json (payloads slots)
        ≡ ok (record { offset = first_offset slots; elements = es })
  payloads_read slots es read = simp (expect_elements, read) refl

module _ {Q : Type 0} (redis : Server Q) (lists : Lists redis) (json : TextCodec)
    (bool_text : Bool → String) where
  open lists use {view, lrange_view}

  -- If all payloads of a queue are set and readable, and the offsets from one to `count` later are within it,
  -- then Retrieve of `count` elements returns one more.
  pub retrieve_gives_one_more :
      (key : String) (offset count : ℕ) (q : Q)
      → first_offset (view key q) ≤ offset
      → offset + count < first_offset (view key q) + length (view key q)
      → All (IsReadable json) (view key q)
      → (es : Elements) × (redis_retrieve json (eval redis bool_text) key offset count q
          ≡ (ok es, q))
        × (length es.elements ≡ count + 1)
  unfolding redis_retrieve eval
  retrieve_gives_one_more key offset count q above below all =
      let b = first_offset (view key q) in
      let run = retrieve_ranges redis lists key offset count q (omega arith) in
      let start : min (offset - b) (length (view key q)) ≡ offset - b = omega arith in
      let stop : min (offset + count - b) (length (view key q)) ≡ offset - b + count =
        omega arith in
      let slots = take (offset - b + count + 1 - (offset - b)) (drop (offset - b) (view key q)) in
      let range : redis.lrange key (min (offset - b) (length (view key q)))
            (min (offset + count - b) (length (view key q))) q
          ≡ slots =
        ap₂ (λ x y. redis.lrange key x y q) start stop
        ∙ lrange_view key (offset - b) (offset - b + count) q in
      let readable =
        All-take json (offset - b + count + 1 - (offset - b)) (drop (offset - b) (view key q))
          (All-drop (IsReadable json) (offset - b) (view key q) all) in
      let (es, read, same_length) = all_read json slots readable in
      let size : length slots ≡ count + 1 = omega (
        arith,
        length-take (offset - b + count + 1 - (offset - b)) (drop (offset - b) (view key q)),
        length-drop (offset - b) (view key q),
      ) in
      (
        record { offset = first_offset slots; elements = es },
        simp (redis_retrieve, eval, run, range, payloads_read json slots es read) refl,
        same_length ∙ size,
      )

  -- Discard of no elements at an offset after the first one changes nothing, also if it is asked to discard
  -- what is before the offset.
  pub discard_keeps_previous :
      (key : String) (offset : ℕ) (keep_previous : Bool) (q : Q)
      → first_offset (view key q) < offset
      → redis_discard json (eval redis bool_text) key offset 0 keep_previous q ≡ (ok tt, q)
  unfolding redis_discard eval mqdiscard discard_middle
  discard_keeps_previous key offset keep_previous q after =
      let there = base_and_length redis lists key q in
      let up : ltb offset (first_offset (view key q)) ≡ false = ground (arith, after) in
      let other : (first_offset (view key q) == offset) ≡ false = ground (arith, after) in
      elim (Bool-cases (length (view key q) == 0)) [
        | inl e ↦
            simp (redis_discard, eval, mqdiscard, discard_middle, there, up, e, same_refl "OK") refl
        | inr e ↦
            simp
              (redis_discard, eval, mqdiscard, discard_middle, there, up, e, other, same_refl "OK")
              refl
      ]
