-- ===== src/Mqueue/Redis/Scripts.antt =====
-- The scripts of mqueue/redis/redis.lua, over the commands of a redis server. The times at which keys expire
-- are not part of it. An argument of a script is a text; numbers are converted from and to texts as Lua
-- does it, and are exact below 2^53, which offsets are taken to be.
use developer_gateway.Prelude.{
  ℕ, zero, suc, ◌+◌, ◌-◌, ◌≡◌, min, Bool, true, false, Option, none, some, List, [], ◌∷◌, ◌++◌,
  String, ltb, ◌==◌, ◌&&◌, length, get_elem?, set, take, drop, if◌then◌else◌,
}
use developer_gateway.Mqueue.Redis.{
  Slot, Command, next_command, remove_command, insert_command, retrieve_command, discard_command,
  Reply, status, number, payloads, failure,
}

-- The commands that the scripts call, on the state of the server.
pub record Server (Q : Type 0) : Type 0 where
  pub exists : (key : String) → Q → ℕ
  pub llen : (key : String) → Q → ℕ
  pub lindex : (key : String) (index : ℕ) → Q → Option Slot
  pub rpush : (key : String) → Slot → Q → ℕ × Q
  pub lset : (key : String) (index : ℕ) → Slot → Q → Q
  pub lrange : (key : String) (start stop : ℕ) → Q → List Slot
  pub ltrim : (key : String) (start stop : ℕ) → Q → Q
  pub lpop : (key : String) → Q → Q
  pub del : (key : String) → Q → ℕ × Q

-- What redis documents of the commands: a key is a list, and is there if the list is not empty.
pub record Lists {Q : Type 0} (redis : Server Q) : Type 0 where
  pub view : (key : String) → Q → List Slot
  pub exists_view : (key : String) (q : Q) → (redis.exists key q == 0) ≡ (length (view key q) == 0)
  pub llen_view : (key : String) (q : Q) → redis.llen key q ≡ length (view key q)
  pub lindex_view : (key : String) (i : ℕ) (q : Q) → redis.lindex key i q ≡ get_elem? (view key q) i
  pub rpush_length :
      (key : String) (slot : Slot) (q : Q) → (redis.rpush key slot q).0 ≡ length (view key q) + 1
  pub rpush_view :
      (key : String) (slot : Slot) (q : Q)
      → view key (redis.rpush key slot q).1 ≡ view key q ++ (slot ∷ [])
  pub lset_view :
      (key : String) (i : ℕ) (slot : Slot) (q : Q)
      → view key (redis.lset key i slot q) ≡ set (view key q) i slot
  pub lrange_view :
      (key : String) (start stop : ℕ) (q : Q)
      → redis.lrange key start stop q ≡ take (stop + 1 - start) (drop start (view key q))

-- A value of Lua, as far as one is tested: all but false (and nil) count as true.
pub data LuaValue : Type 0 where
  boolean : Bool → LuaValue
  text : String → LuaValue

abbrev truthy : LuaValue → Bool
truthy (boolean b) = b
truthy (text t) = true

abbrev pub empty_slot : ℕ → Slot
empty_slot offset = record {
  set_flag = false;
  offset = offset;
  value_type = "";
  value = "";
  discarded = false;
}

abbrev pub base_of : Option Slot → ℕ
base_of none = 0
base_of (some slot) = slot.offset

module _ {Q : Type 0} (redis : Server Q) where
  -- `mqbasenlen`
  unfoldable pub mqbasenlen : (key : String) → Q → ℕ × ℕ
  mqbasenlen key q =
      let len = redis.llen key q in
      if ltb 0 len then (base_of (redis.lindex key 0 q), len) else (0, 0)

  -- `mqnext`
  unfoldable pub mqnext : (key : String) → Q → Reply × Q
  mqnext key q =
      let (base, len) = mqbasenlen key q in
      let (pushed, q') = redis.rpush key (empty_slot (base + len)) q in
      if pushed == len + 1 then (number (base + len), q') else (failure "assertion failed!", q')

  -- `mqinsert`
  unfoldable pub mqinsert : (key : String) (offset : ℕ) (type value : String) → Q → Reply × Q
  mqinsert key offset type value q =
      let (base, len) = mqbasenlen key q in
      let slot : Slot = record {
        set_flag = true;
        offset = offset;
        value_type = type;
        value = value;
        discarded = false;
      } in
      if ltb offset base
      then (failure "assertion failed!", q)
      else if ltb (offset - base) len
      then (status "OK", redis.lset key (offset - base) slot q)
      else (failure "assertion failed!", q)

  -- `mqretrieve`: `start` and `stop` within the list.
  unfoldable pub mqretrieve : (key : String) (offset count : ℕ) → Q → Reply × Q
  mqretrieve key offset count q =
      let (base, len) = mqbasenlen key q in
      let start = min (offset - base) len in
      let stop = min (offset + count - base) len in
      if redis.exists key q == 0
      then (payloads [], q)
      else (payloads (redis.lrange key start stop q), q)

  -- The loop of `mqdiscard` after a trim, on a list of the given length.
  unfoldable pub pop_discarded : (len : ℕ) → (key : String) → Q → Q
  pop_discarded zero key q = q
  pop_discarded (suc len) key q =
      let popped = pop_discarded len key (redis.lpop key q) in
      elim (redis.lindex key 0 q) [
        | none ↦ q
        | some slot ↦ if ltb 0 len && slot.discarded then popped else q
      ]

  -- The marks of `mqdiscard`: the payloads, each at its offset.
  unfoldable pub mark_all : (key : String) (base : ℕ) → List Slot → Q → Q
  mark_all key base [] q = q
  mark_all key base (slot ∷ slots) q =
      mark_all key base slots
        (redis.lset key (slot.offset - base) (record slot { discarded = true }) q)

  -- `mqdiscard` without `keep_previous`, up to the call of itself with `keep_previous`.
  unfoldable pub discard_slide : (key : String) (offset : ℕ) → Q → Q
  discard_slide key offset q =
      let (base, len) = mqbasenlen key q in
      let from = if ltb offset base then base else offset in
      let start = min (from - base) (len - 1) in
      let trimmed = redis.ltrim key start len q in
      let popped = pop_discarded (redis.llen key trimmed) key trimmed in
      if len == 0 then q else popped

  -- `mqdiscard` with `keep_previous`.
  unfoldable pub discard_middle : (key : String) (offset count : ℕ) → Q → Q
  discard_middle key offset count q =
      let (base, len) = mqbasenlen key q in
      let from = if ltb offset base then base else offset in
      let marked =
        mark_all key base (redis.lrange key (from - base) (from - base + count - 1) q) q in
      let slid = discard_slide key (from + count) q in
      if len == 0 then q else if base == from then slid else if ltb 0 count then marked else q

  -- `mqdiscard`; the calls of itself have a Boolean, and end within these two functions.
  unfoldable pub mqdiscard :
      (key : String) (offset count : ℕ) (keep_previous : LuaValue) → Q → Reply × Q
  mqdiscard key offset count keep_previous q =
      let (base, len) = mqbasenlen key q in
      let from = if ltb offset base then base else offset in
      let slid = discard_slide key offset q in
      let both = discard_middle key from count slid in
      if truthy keep_previous
      then (status "OK", discard_middle key offset count q)
      else if len == 0
      then (status "OK", q)
      else if ltb 0 count
      then (status "OK", both)
      else (status "OK", slid)

  -- `mqremove`
  abbrev mqremove : (key : String) → Q → Reply × Q
  mqremove key q = let (removed, q') = redis.del key q in (number removed, q')

  -- What the server does with a command of command.go: its arguments are texts; `bool_text` is how the
  -- client writes a Boolean.
  unfoldable pub eval : (bool_text : Bool → String) → Command → Q → Reply × Q
  eval bool_text (next_command key) q = mqnext key q
  eval bool_text (remove_command key) q = mqremove key q
  eval bool_text (insert_command key offset type content) q = mqinsert key offset type content q
  eval bool_text (retrieve_command key offset count) q = mqretrieve key offset count q
  eval bool_text (discard_command key offset count keep_previous) q =
      mqdiscard key offset count (text (bool_text keep_previous)) q
