-- ===== src/Stats/Counters/Counts.antt =====
-- What a counter of a group counts.
use mathlib.Core.Path.{subst}
use developer_gateway.Prelude.{
  ℕ, ◌+◌, ◌%◌, ◌^◌, ◌<◌, ◌≡◌, refl, ap, ◌∙◌, Bool, true, false, Option, none, some, List, [], ◌∷◌,
  String, same, same→≡, same_sym, if◌then◌else◌, Bool-cases, Option-cases, inl, inr, arith,
}
use developer_gateway.Stats.Counters.{CounterGroup, find, change, get, add_one, incr}

-- The counter after a list of increments.
unfoldable incr_all : CounterGroup → List String → CounterGroup
incr_all g [] = g
incr_all g (name ∷ names) = incr_all (incr g name) names

-- How many of the names are counted at a key.
unfoldable pub hits : CounterGroup → String → List String → ℕ
hits g key [] = 0
hits g key (name ∷ names) =
    let rest = hits g key names in if same (get g name) key then rest + 1 else rest

module _ {A : Type 0} (at key : String) (old : A) (g : List (String × A)) where
  find_here : same at key ≡ true → find ((at, old) ∷ g) key ≡ some old
  unfolding find
  find_here e = simp e refl

  find_later : same at key ≡ false → find ((at, old) ∷ g) key ≡ find g key
  unfolding find
  find_later e = simp e refl

  change_here : (f : A → A) → same at key ≡ true → change f ((at, old) ∷ g) key ≡ (at, f old) ∷ g
  unfolding change
  change_here f e = simp e refl

  change_later :
      (f : A → A) → same at key ≡ false → change f ((at, old) ∷ g) key ≡ (at, old) ∷ change f g key
  unfolding change
  change_later f e = simp e refl

abbrev map_if : {A : Type 0} → (A → A) → Bool → Option A → Option A
map_if f b none = none
map_if f b (some v) = some (if b then f v else v)

map_if_not : {A : Type 0} (f : A → A) (v : Option A) (b : Bool) → b ≡ false → v ≡ map_if f b v
map_if_not f none b e = refl
map_if_not f (some v) b e = rw e refl

find-change :
    {A : Type 0} (f : A → A) (g : List (String × A)) (name key : String)
    → find (change f g name) key ≡ map_if f (same name key) (find g key)
unfolding find change
find-change f [] name key = refl
find-change f ((at, old) ∷ g) name key = elim (Bool-cases (same at name)) [
  | inl e ↦
      let names : same at key ≡ same name key = ap (λ s. same s key) (same→≡ at name e) in
      elim (Bool-cases (same name key)) [
        | inl h ↦
            rw
              (
                change_here at name old g f e,
                find_here at key (f old) g (names ∙ h),
                find_here at key old g (names ∙ h),
                h,
              )
              refl
        | inr h ↦
            rw
              (
                change_here at name old g f e,
                find_later at key (f old) g (names ∙ h),
                find_later at key old g (names ∙ h),
              )
              (map_if_not f (find g key) (same name key) h)
      ]
  | inr e ↦ elim (Bool-cases (same at key)) [
    | inl h ↦
        let other : same name key ≡ false =
          subst (λ s. same name s ≡ false) (same→≡ at key h) (same_sym at name e) in
        rw
          (
            change_later at name old g f e,
            find_here at key old (change f g name) h,
            find_here at key old g h,
            other,
          )
          refl
    | inr h ↦
        rw
          (
            change_later at name old g f e,
            find_later at key old (change f g name) h,
            find_later at key old g h,
          )
          (find-change f g name key)
  ]
]

-- The keys are those that were there.
get-change :
    {A : Type 0} (f : A → A) (g : List (String × A)) (name key : String)
    → get (change f g name) key ≡ get g key
unfolding get
get-change f g name key = elim (Option-cases (find g key)) [
  | inl e ↦
      let after : find (change f g name) key ≡ none =
        find-change f g name key ∙ ap (map_if f (same name key)) e in
      simp (get, e, after) refl
  | inr (v, e) ↦
      let after : find (change f g name) key ≡ some (if same name key then f v else v) =
        find-change f g name key ∙ ap (map_if f (same name key)) e in
      simp (get, e, after) refl
]

hits-incr :
    (g : CounterGroup) (name key : String) (names : List String)
    → hits (incr g name) key names ≡ hits g key names
unfolding hits incr
hits-incr g name key [] = refl
hits-incr g name key (next ∷ names) =
    rw (get-change add_one g (get g name) next, hits-incr g name key names) refl

count_step :
    (b : Bool) (v n : ℕ)
    → ((if b then add_one v else v) + n) % 2 ^ 64 ≡ (v + (if b then n + 1 else n)) % 2 ^ 64
count_step true v n = omega arith
count_step false v n = refl

step_small : (b : Bool) (v : ℕ) → v < 2 ^ 64 → (if b then add_one v else v) < 2 ^ 64
step_small true v small = omega arith
step_small false v small = small

-- If a key of a group has a counter, then after a list of increments the counter is as many more, modulo
-- 2^64, as there are names in the list that are counted at the key: the names that are the key, and for
-- the key "undefined" those that the group does not have.
counter_counts :
    (names : List String) (g : CounterGroup) (key : String) (v : ℕ)
    → v < 2 ^ 64
    → find g key ≡ some v
    → find (incr_all g names) key ≡ some ((v + hits g key names) % 2 ^ 64)
unfolding incr_all hits incr
counter_counts [] g key v small e =
    let whole : (v + 0) % 2 ^ 64 ≡ v = omega (arith, small) in rw whole e
counter_counts (name ∷ names) g key v small e =
    let counted = same (get g name) key in
    let v' : ℕ = if counted then add_one v else v in
    let next : find (incr g name) key ≡ some v' =
      find-change add_one g (get g name) key ∙ ap (map_if add_one counted) e in
    counter_counts names (incr g name) key v' (step_small counted v small) next
    ∙ ap (λ n. some ((v' + n) % 2 ^ 64)) (hits-incr g name key names)
    ∙ ap some (count_step counted v (hits g key names))
