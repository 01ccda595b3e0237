-- ===== src/Stats/Counters.antt =====
-- `CounterGroup` of stats/counter.go. A counter is its uint64; the increments of goroutines are one after
-- the other, since they are atomic.
pub mod Counts
use developer_gateway.Prelude.{
  ℕ, ◌+◌, ◌%◌, ◌^◌, Option, none, some, List, [], ◌∷◌, String, same, if◌then◌else◌,
}

unfoldable pub put : {A : Type 0} → String → A → List (String × A) → List (String × A)
put name value [] = (name, value) ∷ []
put name value ((key, old) ∷ g) =
    let rest = put name value g in if same key name then (key, value) ∷ g else (key, old) ∷ rest

unfoldable pub find : {A : Type 0} → List (String × A) → String → Option A
find [] name = none
find ((key, value) ∷ g) name = let rest = find g name in if same key name then some value else rest

-- Change what is at a key that is there.
unfoldable pub change : {A : Type 0} → (A → A) → List (String × A) → String → List (String × A)
change f [] name = []
change f ((key, value) ∷ g) name =
    let rest = change f g name in if same key name then (key, f value) ∷ g else (key, value) ∷ rest

abbrev pub CounterGroup : Type 0
CounterGroup = List (String × ℕ)

-- `NewCounterGroup`
unfoldable pub new_counter_group : List String → CounterGroup
new_counter_group names = put "undefined" 0 (reset names [])
  where
    reset : List String → CounterGroup → CounterGroup
    reset [] g = g
    reset (name ∷ names) g = reset names (put name 0 g)

-- The key of an entry, or that of the entry for all else. `Get` has it.
unfoldable pub get : {A : Type 0} → List (String × A) → (name : String) → String
get g name = elim (find g name) [ none ↦ "undefined" | some value ↦ name ]

-- `Counter.Incr`
abbrev pub add_one : ℕ → ℕ
add_one value = (value + 1) % 2 ^ 64

-- `CounterGroup.Incr`
unfoldable pub incr : CounterGroup → String → CounterGroup
incr g name = change add_one g (get g name)
