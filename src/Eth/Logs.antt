-- ===== src/Eth/Logs.antt =====
-- `LogSubscriber` of eth/subscription.go: which of the events of a subscription are delivered, and from
-- where the next subscription starts.
use developer_gateway.Prelude.{
  ℕ, ◌≤◌, ◌<◌, ◌≡◌, refl, ap, Bool, true, false, Option, some, List, [], ◌∷◌, ◌++◌, String, ltb,
  ◌==◌, ◌&&◌, ◌||◌, ◌⊎◌, inl, inr, if◌then◌else◌, arith, Bool-cases, All,
}

-- What is used of `types.Log`.
pub record Log : Type 0 where
  pub block_number : ℕ
  pub index : ℕ
  pub topics : List String
  pub bytes : List ℕ

-- The fields that change; the block that a subscription starts from is in its filter query.
pub record LogSubscriber : Type 0 where
  pub from_block : Option ℕ
  pub block_number : ℕ
  pub index : ℕ

abbrev is_previous : Log → LogSubscriber → Bool
is_previous ev s =
    ltb ev.block_number s.block_number
    || ((ev.block_number == s.block_number) && ltb ev.index s.index)

-- The goroutine of `Subscribe` on the events that it receives: those that it delivers.
unfoldable pub receive_all : List Log → LogSubscriber → List Log × LogSubscriber
receive_all [] s = ([], s)
receive_all (ev ∷ evs) s =
    let skipped = receive_all evs s in
    let (rest, s') =
      receive_all evs (record s { block_number = ev.block_number; index = ev.index }) in
    if is_previous ev s then skipped else (ev ∷ rest, s')

-- What the goroutine does at its end.
unfoldable pub end_subscription : LogSubscriber → LogSubscriber
end_subscription s = record s { from_block = some s.block_number }

-- The position of an event is not before another one.
abbrev IsAfter : (block index : ℕ) → Log → Type 0
IsAfter block index ev =
    (block < ev.block_number) ⊎ ((block ≡ ev.block_number) × (index ≤ ev.index))

-- The events are in the order of their positions, from a position on.
abbrev InOrder : (block index : ℕ) → List Log → Type 0
InOrder block index [] = Unit
InOrder block index (ev ∷ evs) = IsAfter block index ev × InOrder ev.block_number ev.index evs

abbrev IsBefore : Log → Log → Type 0
IsBefore last ev =
    (ev.block_number < last.block_number)
    ⊎ ((ev.block_number ≡ last.block_number) × (ev.index < last.index))

not_previous :
    (ev : Log) (s : LogSubscriber) → is_previous ev s ≡ false → IsAfter s.block_number s.index ev
not_previous ev s h = elim (Bool-cases (ltb s.block_number ev.block_number)) [
  | inl e ↦ inl (ground (arith, e))
  | inr e ↦ inr (ground (arith, e, h), ground (arith, e, h))
]

after_not_previous :
    (ev : Log) (s : LogSubscriber) → IsAfter s.block_number s.index ev → is_previous ev s ≡ false
after_not_previous ev s h = ground arith

before_previous :
    (last ev : Log) (s : LogSubscriber)
    → s.block_number ≡ last.block_number
    → s.index ≡ last.index
    → IsBefore last ev
    → is_previous ev s ≡ true
before_previous last ev s b i h = ground arith

-- What the subscriber delivers is in the order of the positions, from its own position on.
receive_all-InOrder :
    (evs : List Log) (s : LogSubscriber) → InOrder s.block_number s.index (receive_all evs s).0
unfolding receive_all
receive_all-InOrder [] s = tt
receive_all-InOrder (ev ∷ evs) s = elim (Bool-cases (is_previous ev s)) [
  | inl e ↦ rw (receive_all, e) (receive_all-InOrder evs s)
  | inr e ↦ rw (receive_all, e) (not_previous ev s e, receive_all-InOrder evs _)
]

-- Events in that order are all delivered.
receive_all_whole :
    (evs : List Log) (s : LogSubscriber)
    → InOrder s.block_number s.index evs
    → (receive_all evs s).0 ≡ evs
unfolding receive_all
receive_all_whole [] s h = refl
receive_all_whole (ev ∷ evs) s (after, h) =
    rw (receive_all, after_not_previous ev s after) (ap (λ l. ev ∷ l) (receive_all_whole evs _ h))

-- After the end of a subscription whose last delivered event is `last`, the next subscription is asked
-- for from the block of `last`. If the node then sends some events that are before `last`, `last`
-- again, and events in order after it, the subscriber delivers `last` a second time, and all that
-- come after it.
pub resubscription_repeats_last :
    (earlier later : List Log) (last : Log) (s : LogSubscriber)
    → s.block_number ≡ last.block_number
    → s.index ≡ last.index
    → All (IsBefore last) earlier
    → InOrder last.block_number last.index later
    → ((end_subscription s).from_block ≡ some last.block_number)
      × ((receive_all (earlier ++ (last ∷ later)) (end_subscription s)).0 ≡ last ∷ later)
unfolding end_subscription receive_all
resubscription_repeats_last [] later last s block index all ordered =
    let again : is_previous last (end_subscription s) ≡ false =
      after_not_previous last (end_subscription s) (inr (block, omega (arith, index))) in
    (
      ap some block,
      rw (receive_all, again) (ap (λ l. last ∷ l) (receive_all_whole later _ ordered)),
    )
resubscription_repeats_last (ev ∷ earlier) later last s block index (before, all) ordered =
    let rest = resubscription_repeats_last earlier later last s block index all ordered in
    (
      rest.0,
      rw (receive_all, before_previous last ev (end_subscription s) block index before) (rest.1),
    )
