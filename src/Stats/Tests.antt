-- ===== src/Stats/Tests.antt =====
-- The window on concrete samples.
use developer_gateway.Prelude.{
  ◌≡◌, refl, ℕ, List, String, Option, same, inr, none, some, [], ◌∷◌, arith,
}
use developer_gateway.Stats.Counters.{new_counter_group, find, put, change, get, incr}
use developer_gateway.Stats.Counters.Counts.{hits}
use developer_gateway.Stats.Tracker.{
  new_method_tracker, new_method_tracker_with_result, track_all, add_count, store_latency,
  instrument, instrument_result,
}
use developer_gateway.Stats.Window.{
  IntWindow, new_int_window, add, wrap_around, recalculate, samples,
}
use developer_gateway.Stats.Window.Recent.{add_all, window_shows_recent, recent}

-- Five samples in a window of two.
keeps_two :
    (elim (add_all (new_int_window 2) (1 ∷ 2 ∷ 3 ∷ 4 ∷ 5 ∷ [])) [
      | none ↦ none
      | some w ↦ samples w
    ])
    ≡ some (4 ∷ 5 ∷ [])
unfolding add_all new_int_window add wrap_around recalculate samples
keeps_two = refl

window_shows_recent_example :
    (w : IntWindow) × (add_all (new_int_window 2) (1 ∷ 2 ∷ 3 ∷ 4 ∷ 5 ∷ []) ≡ some w)
    × (samples w ≡ some (recent 2 (1 ∷ 2 ∷ 3 ∷ 4 ∷ 5 ∷ [])))
window_shows_recent_example =
    window_shows_recent 2 (1 ∷ 2 ∷ 3 ∷ 4 ∷ 5 ∷ []) (omega arith) (omega arith)

abbrev results : List String
results = "200" ∷ "500" ∷ []

starts_at_zero : find (new_counter_group results) "undefined" ≡ some 0
unfolding find new_counter_group put same
starts_at_zero = refl

two_undefined : hits (new_counter_group results) "undefined" ("404" ∷ "200" ∷ "409" ∷ []) ≡ 2
unfolding hits get find new_counter_group put same
two_undefined = refl

-- A call of an unknown method that fails, with a latency of 7.
abbrev tracked : Option (List ℕ × Option ℕ)
tracked = elim (instrument {V = ℕ} {E = ℕ} (new_method_tracker ("GET" ∷ [])) "PUT" 7 (inr 4)) [
  | none ↦ none
  | some (result, t) ↦ elim (find t.latencies "undefined") [
    | none ↦ none
    | some window ↦ elim (samples window) [
      | none ↦ none
      | some latencies ↦ elim (find t.count "undefined") [
        | none ↦ none
        | some group ↦ some (latencies, find group "error")
      ]
    ]
  ]
]

an_unknown_method_is_tracked : tracked ≡ some (7 ∷ [], some 1)
unfolding instrument_result store_latency add_count new_method_tracker_with_result track_all
    new_counter_group put find change get incr same add new_int_window wrap_around recalculate
    samples
an_unknown_method_is_tracked = refl
