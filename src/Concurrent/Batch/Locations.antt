-- ===== src/Concurrent/Batch/Locations.antt =====
-- Where the arguments of a batch of concurrent/conc.go are: in a channel, held by a goroutine, among the
-- results that are sent, or collected.
use developer_gateway.Prelude.{
  ℕ, zero, suc, ◌+◌, ◌≤◌, ◌<◌, ◌≡◌, ◌≢◌, refl, ap, ◌∙◌, Option, none, some, List, [], ◌∷◌, ◌++◌,
  length, get_elem?, set, ◌==◌, if◌then◌else◌, arith, replicate, ap₂,
}
use developer_gateway.Concurrent.Batch.{BatchWorker, idle_worker}

-- One if the index is the argument's.
abbrev pub one_at : ℕ → ℕ → ℕ
one_at i x = if i == x then 1 else 0

unfoldable pub among : ℕ → List ℕ → ℕ
among i [] = 0
among i (x ∷ xs) = one_at i x + among i xs

abbrev pub holds : ℕ → Option ℕ → ℕ
holds i none = 0
holds i (some x) = one_at i x

abbrev pub load : ℕ → BatchWorker → ℕ
load i w = among i w.arg_ch + holds i w.held

-- What the goroutines have together, by what each has.
unfoldable pub total_of : (BatchWorker → ℕ) → List BatchWorker → ℕ
total_of f [] = 0
total_of f (w ∷ ws) = f w + total_of f ws

abbrev pub loads : ℕ → List BatchWorker → ℕ
loads i = total_of (load i)

pub among-append : (i x : ℕ) (xs : List ℕ) → among i (xs ++ (x ∷ [])) ≡ among i xs + one_at i x
unfolding among
among-append i x [] = omega arith
among-append i x (y ∷ xs) = omega (arith, among-append i x xs)

pub load_taken :
    (j i : ℕ) (rest : List ℕ) (w : BatchWorker)
    → w.held ≡ none
    → w.arg_ch ≡ i ∷ rest
    → load j w ≡ among j rest + one_at j i
unfolding among
load_taken j i rest w free args = simp (free, args) (omega arith)

pub load_held :
    (j i : ℕ) (w : BatchWorker) → w.held ≡ some i → load j w ≡ among j w.arg_ch + one_at j i
load_held j i w held = ap (λ h. among j w.arg_ch + holds j h) held

pub total_of-set :
    (f : BatchWorker → ℕ) (k : ℕ) (w w' : BatchWorker) (ws : List BatchWorker)
    → get_elem? ws k ≡ some w
    → total_of f (set ws k w') + f w ≡ total_of f ws + f w'
unfolding total_of
total_of-set f k w w' [] e = ground (arith, e)
total_of-set f zero w w' (v ∷ ws) e = let same : v ≡ w = cc in rw same (omega arith)
total_of-set f (suc k) w w' (v ∷ ws) e = omega (arith, total_of-set f k w w' ws e)

module _ {V : Type 0} where
  unfoldable pub in_results : ℕ → List (ℕ × V) → ℕ
  in_results i [] = 0
  in_results i ((x, v) ∷ rs) = one_at i x + in_results i rs

  pub in_results-append :
      (i x : ℕ) (v : V) (rs : List (ℕ × V))
      → in_results i (rs ++ ((x, v) ∷ [])) ≡ in_results i rs + one_at i x
  unfolding in_results
  in_results-append i x v [] = omega arith
  in_results-append i x v ((y, u) ∷ rs) = omega (arith, in_results-append i x v rs)

  abbrev pub filled : Option V → ℕ
  filled none = 0
  filled (some v) = 1

  unfoldable pub is_set : ℕ → List (Option V) → ℕ
  is_set i [] = 0
  is_set zero (r ∷ rs) = filled r
  is_set (suc i) (r ∷ rs) = is_set i rs

  unfoldable pub how_many : List (Option V) → ℕ
  how_many [] = 0
  how_many (r ∷ rs) = filled r + how_many rs

  pub is_set-set :
      (i x : ℕ) (v : V) (rs : List (Option V))
      → x < length rs
      → is_set x rs ≡ 0
      → is_set i (set rs x (some v)) ≡ is_set i rs + one_at i x
  unfolding is_set
  is_set-set i x v [] h e = absurd (omega arith)
  is_set-set zero zero v (r ∷ rs) h e = omega (arith, e)
  is_set-set (suc i) zero v (r ∷ rs) h e = ground arith
  is_set-set zero (suc x) v (r ∷ rs) h e = ground arith
  is_set-set (suc i) (suc x) v (r ∷ rs) h e = ground (arith, is_set-set i x v rs)

  pub how_many-set :
      (x : ℕ) (v : V) (rs : List (Option V))
      → x < length rs
      → is_set x rs ≡ 0
      → how_many (set rs x (some v)) ≡ how_many rs + 1
  unfolding is_set how_many
  how_many-set x v [] h e = absurd (omega arith)
  how_many-set zero v (r ∷ rs) h e = omega (arith, e)
  how_many-set (suc x) v (r ∷ rs) h e = omega (arith, how_many-set x v rs (omega arith) e)

  -- If as many are filled as there are, all are.
  how_many-le : (rs : List (Option V)) → how_many rs ≤ length rs
  unfolding how_many
  how_many-le [] = omega arith
  how_many-le (none ∷ rs) = omega (arith, how_many-le rs)
  how_many-le (some v ∷ rs) = omega (arith, how_many-le rs)

pub loads-idle : (i n : ℕ) → loads i (replicate n idle_worker) ≡ 0
unfolding total_of among
loads-idle i zero = refl
loads-idle i (suc n) = omega (arith, loads-idle i n)

shift : (from i : ℕ) → from + suc i ≡ suc from + i
shift from i = omega arith

module _ (V : Type 0) where
  pub is_set-empty : (i n : ℕ) → is_set i (replicate {A = Option V} n none) ≡ 0
  unfolding is_set
  is_set-empty i zero = refl
  is_set-empty zero (suc n) = refl
  is_set-empty (suc i) (suc n) = is_set-empty i n

  pub how_many-empty : (n : ℕ) → how_many (replicate {A = Option V} n none) ≡ 0
  unfolding how_many
  how_many-empty zero = refl
  how_many-empty (suc n) = omega (arith, how_many-empty n)

  pub get_elem?-empty :
      (i n : ℕ) (v : V) → get_elem? (replicate {A = Option V} n none) i ≢ some (some v)
  get_elem?-empty i zero v e = ground (arith, e)
  get_elem?-empty zero (suc n) v e = ground (arith, e)
  get_elem?-empty (suc i) (suc n) v e = get_elem?-empty i n v e

module _ {V : Type 0} where
  -- The values of the suppliers from one on, in their order.
  abbrev pub in_order : (supply : ℕ → V) → (from count : ℕ) → List (Option V)
  in_order supply from zero = []
  in_order supply from (suc n) = some (supply from) ∷ in_order supply (suc from) n

  pub all_in_order :
      (supply : ℕ → V) (from : ℕ) (rs : List (Option V))
      → ((i : ℕ) (v : V) → get_elem? rs i ≡ some (some v) → v ≡ supply (from + i))
      → how_many rs ≡ length rs
      → rs ≡ in_order supply from (length rs)
  unfolding how_many
  all_in_order supply from [] right full = refl
  all_in_order supply from (none ∷ rs) right full = absurd (omega (arith, how_many-le rs))
  all_in_order supply from (some v ∷ rs) right full =
      let head : v ≡ supply from = right 0 v refl ∙ ap supply (omega arith) in
      let rest : how_many rs ≡ length rs = omega arith in
      let later = λ (i : ℕ) (u : V) (e : get_elem? rs i ≡ some (some u)).
        right (suc i) u e ∙ ap supply (shift from i) in
      ap₂ (λ a l. some a ∷ l) head (all_in_order supply (suc from) rs later rest)

  pub how_many_all :
      (rs : List (Option V)) → ((i : ℕ) → i < length rs → is_set i rs ≡ 1) → how_many rs ≡ length rs
  unfolding how_many is_set
  how_many_all [] set = refl
  how_many_all (r ∷ rs) set =
      let rest = how_many_all rs (λ i h. set (suc i) (omega arith)) in
      let head : filled r ≡ 1 = set 0 (omega arith) in omega (arith, rest, head)
