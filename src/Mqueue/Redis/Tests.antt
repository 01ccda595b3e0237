-- ===== src/Mqueue/Redis/Tests.antt =====
-- The queue of mqueue/redis on a server whose state is a function from keys to lists.
use developer_gateway.Prelude.{
  ℕ, ◌+◌, ◌-◌, ◌≡◌, refl, Bool, true, false, some, List, [], ◌∷◌, ◌++◌, String, same, same_refl,
  ◌==◌, length, get_elem?, set, take, drop, if◌then◌else◌, inl, arith,
}
use developer_gateway.Mqueue.{Elements}
use developer_gateway.Mqueue.Redis.{
  Slot, ok, TextCodec, redis_next, redis_insert, redis_retrieve, redis_discard,
}
use developer_gateway.Mqueue.Redis.Scripts.{
  Server, Lists, eval, mqbasenlen, mqdiscard, discard_slide, discard_middle, pop_discarded,
  mark_all,
}
use developer_gateway.Mqueue.Redis.Numbers.{inserted_is_retrieved}
use developer_gateway.Mqueue.Redis.Limits.{retrieve_gives_one_more, discard_keeps_previous}

abbrev Store : Type 0
Store = String → List Slot

abbrev write : String → List Slot → Store → Store
write key slots q other = if same key other then slots else q other

abbrev present : List Slot → ℕ
present [] = 0
present (slot ∷ slots) = 1

abbrev server : Server Store
server = record {
  exists = λ key q. present (q key);
  llen = λ key q. length (q key);
  lindex = λ key i q. get_elem? (q key) i;
  rpush = λ key slot q. (length (q key) + 1, write key (q key ++ (slot ∷ [])) q);
  lset = λ key i slot q. write key (set (q key) i slot) q;
  lrange = λ key start stop q. take (stop + 1 - start) (drop start (q key));
  ltrim = λ key start stop q. write key (take (stop + 1 - start) (drop start (q key))) q;
  lpop = λ key q. write key (drop 1 (q key)) q;
  del = λ key q. (present (q key), write key [] q);
}

present_lem : (slots : List Slot) → (present slots == 0) ≡ (length slots == 0)
present_lem [] = refl
present_lem (slot ∷ slots) = ground arith

write_lem : (key : String) (slots : List Slot) (q : Store) → write key slots q key ≡ slots
write_lem key slots q = rw (same_refl key) refl

abbrev lists : Lists server
lists = record {
  view = λ key q. q key;
  exists_view = λ key q. present_lem (q key);
  llen_view = λ key q. refl;
  lindex_view = λ key i q. refl;
  rpush_length = λ key slot q. refl;
  rpush_view = λ key slot q. write_lem key (q key ++ (slot ∷ [])) q;
  lset_view = λ key i slot q. write_lem key (set (q key) i slot) q;
  lrange_view = λ key start stop q. refl;
}

abbrev json : TextCodec
json = record { marshal = λ t. inl t; unmarshal = λ t. some t }

-- As go-redis writes a Boolean.
abbrev bool_text : Bool → String
bool_text true = "1"
bool_text false = "0"

abbrev set_slot : ℕ → String → Slot
set_slot offset value = record {
  set_flag = true;
  offset = offset;
  value_type = "data";
  value = value;
  discarded = false;
}

abbrev two_set : Store
two_set key = set_slot 4 "a" ∷ set_slot 5 "b" ∷ []

inserted_is_retrieved_example :
    (offset : ℕ) × (q1 : Store) × (q2 : Store) × (offset ≡ 6)
    × (redis_next json (eval server bool_text) "s" two_set ≡ (ok offset, q1))
    × (redis_insert json
          (eval server bool_text)
          "s"
          (record { offset = offset; value = "c"; type = "data" })
          q1
        ≡ (ok tt, q2))
    × (redis_retrieve json (eval server bool_text) "s" offset 8 q2 ≡ (
      ok (record {
        offset = offset;
        elements = record { offset = offset; value = "c"; type = "data" } ∷ [];
      }),
      q2,
    ))
inserted_is_retrieved_example =
    inserted_is_retrieved server lists json bool_text "s" "data" "c" "c" 8 two_set refl refl

retrieve_gives_one_more_example :
    (es : Elements) × (redis_retrieve json (eval server bool_text) "s" 4 1 two_set
      ≡ (ok es, two_set))
    × (length es.elements ≡ 2)
retrieve_gives_one_more_example =
    retrieve_gives_one_more server lists json bool_text "s" 4 1 two_set (omega arith) (omega arith)
      ((refl, "a", refl), ((refl, "b", refl), tt))

discard_keeps_previous_example :
    redis_discard json (eval server bool_text) "s" 5 0 false two_set ≡ (ok tt, two_set)
discard_keeps_previous_example =
    discard_keeps_previous server lists json bool_text "s" 5 false two_set (omega arith)

-- A discard from the first offset on works; the last payload is kept.
discards_one :
    (redis_discard json (eval server bool_text) "s" 4 1 true two_set).1 "s" ≡ set_slot 5 "b" ∷ []
unfolding redis_discard eval mqdiscard discard_middle discard_slide mqbasenlen pop_discarded
    mark_all same
discards_one = refl
