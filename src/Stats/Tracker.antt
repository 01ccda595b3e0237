-- ===== src/Stats/Tracker.antt =====
-- `MethodTracker` of stats/instrument.go: for each method, the counts of the results of its calls and the
-- window of their latencies. The latency of a call is given.
use developer_gateway.Prelude.{ℕ, Option, none, some, List, [], ◌∷◌, String, ◌⊎◌, inl, inr}
use developer_gateway.Stats.Window.{IntWindow, new_int_window, add}
use developer_gateway.Stats.Counters.{CounterGroup, new_counter_group, put, find, change, get, incr}

pub record MethodTracker : Type 0 where
  pub count : List (String × CounterGroup)
  pub latencies : List (String × IntWindow)

unfoldable pub track_all : {A : Type 0} → A → List String → List (String × A) → List (String × A)
track_all value [] g = put "undefined" value g
track_all value (name ∷ names) g = track_all value names (put name value g)

-- `NewMethodTrackerWithResult`
unfoldable pub new_method_tracker_with_result :
    (methods results : List String) (window_size : ℕ) → MethodTracker
new_method_tracker_with_result methods results window_size = record {
  count = track_all (new_counter_group results) methods [];
  latencies = track_all (new_int_window window_size) methods [];
}

-- `NewMethodTracker`
abbrev pub new_method_tracker : List String → MethodTracker
new_method_tracker methods = new_method_tracker_with_result methods ("ok" ∷ "error" ∷ []) 64

-- `AddCount`
unfoldable pub add_count : MethodTracker → (name result : String) → MethodTracker
add_count t name result = record t {
  count = change (λ group. incr group result) t.count (get t.count name);
}

-- `StoreLatency`, or none if the window is read or written out of range.
unfoldable pub store_latency : MethodTracker → String → ℕ → Option MethodTracker
store_latency t name latency =
    let key = get t.latencies name in
    elim (find t.latencies key) as (λ _. Option MethodTracker) [
      | none ↦ none
      | some window ↦ elim (add window latency) as (λ _. Option MethodTracker) [
        | none ↦ none
        | some window' ↦ some (record t { latencies = put key window' t.latencies })
      ]
    ]

-- `InstrumentResult` of a call that has run, with its value, error and type of result.
unfoldable pub instrument_result :
    {R : Type 0}
    → MethodTracker
    → (name : String) → (latency : ℕ) → (result : R) (type : String) → Option (R × MethodTracker)
instrument_result {R} t name latency result type =
    elim (store_latency t name latency) as (λ _. Option (R × MethodTracker)) [
      | none ↦ none
      | some t' ↦ some (result, add_count t' name type)
    ]

-- `Instrument`
abbrev pub instrument :
    {V E : Type 0}
    → MethodTracker
    → (name : String) → (latency : ℕ) → V ⊎ E
    → Option ((V ⊎ E) × MethodTracker)
instrument t name latency (inl v) = instrument_result t name latency (inl v) "ok"
instrument t name latency (inr e) = instrument_result t name latency (inr e) "error"
