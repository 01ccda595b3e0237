-- ===== src/Stats/Window/Recent.antt =====
-- The window of stats/window.go has the samples that were added last.
use developer_gateway.Prelude.{
  ℕ, suc, ◌+◌, ◌-◌, ◌*◌, ◌%◌, ◌^◌, ◌≡◌, ◌<◌, refl, sym, ap, ◌∙◌, Option, none, some, List, [], ◌∷◌,
  ◌++◌, length, set, take, drop, ltb, arith, length-set, length-take, length-drop, length-replicate,
  length-append, take-set, drop-append, drop-drop, take-append, Bool-cases, inl, inr, tests,
  take_of_length-le,
}
use mathlib.Core.List.{append_assoc, append-nil}
use developer_gateway.Stats.Window.{
  IntWindow, new_int_window, wrap_around, recalculate, add, samples,
}

-- The last `most` elements.
unfoldable pub recent : ℕ → List ℕ → List ℕ
recent most xs = drop (length xs - most) xs

pub record IsValid (w : IntWindow) : Type 0 where
  pub positive : 0 < w.max_samples
  pub small : w.max_samples * 2 < 2 ^ 32
  pub storage : length w.window ≡ w.max_samples * 2
  pub space : w.end < w.max_samples * 2
  pub start : w.offset ≡ w.end - w.max_samples

-- The samples that the window shows.
abbrev pub shown : IntWindow → List ℕ
shown w = drop w.offset (take w.end w.window)

new_int_window-IsValid : (m : ℕ) → 0 < m → m * 2 < 2 ^ 32 → IsValid (new_int_window m)
unfolding new_int_window
new_int_window-IsValid m pos small = record {
  positive = pos;
  small = small;
  storage = omega (arith, length-replicate {A = ℕ} ((m * 2) % 2 ^ 32) 0);
  space = omega arith;
  start = omega arith;
}

samples-shown : (w : IntWindow) → IsValid w → samples w ≡ some (shown w)
unfolding samples
samples-shown w v = ground (arith, v.storage, v.space, v.start)

recent-append :
    (m : ℕ) (xs : List ℕ) (x : ℕ) → recent m (recent m xs ++ (x ∷ [])) ≡ recent m (xs ++ (x ∷ []))
unfolding recent
recent-append m xs x =
    let k : ℕ = length xs - m in
    ap (λ l. drop (length l - m) l) (sym (drop-append k xs (x ∷ []) (omega arith)))
    ∙ drop-drop (length (drop k (xs ++ (x ∷ []))) - m) k (xs ++ (x ∷ []))
    ∙ ap (λ n. drop n (xs ++ (x ∷ [])))
        (omega (arith, length-drop k (xs ++ (x ∷ [])), length-append xs (x ∷ [])))

-- A step that stays inside the storage.
add_inside :
    (w : IntWindow) (x : ℕ)
    → IsValid w
    → w.end + 1 < w.max_samples * 2
    → add w x
      ≡ some (record w {
        window = set w.window w.end x;
        end = w.end + 1;
        offset = w.end + 1 - w.max_samples;
      })
unfolding add wrap_around recalculate
add_inside w x v h =
    ground (arith, v.positive, v.small, v.storage, v.space, v.start, length-set w.window w.end x)

-- A step that fills the storage: its second half is copied to its beginning.
add_at_end :
    (w : IntWindow) (x : ℕ)
    → IsValid w
    → w.end + 1 ≡ w.max_samples * 2
    → add w x
      ≡ some (record w {
        window =
            drop w.max_samples (set w.window w.end x) ++ drop w.max_samples (set w.window w.end x);
        offset = 0;
        end = w.max_samples;
      })
unfolding add wrap_around recalculate
add_at_end w x v h =
    let size = length-set w.window w.end x in
    let index : (length (set w.window w.end x) + 2 ^ 32 - w.max_samples) % 2 ^ 32 ≡ w.max_samples =
      omega (arith, size, v.positive, v.small, v.storage) in
    let half : length (drop w.max_samples (set w.window w.end x)) ≡ w.max_samples =
      omega (arith, length-drop w.max_samples (set w.window w.end x), size, v.storage) in
    rw (index, half) (ground (arith, v.positive, v.small, v.storage, v.space, v.start, size))

-- The samples shown are the last of those in the storage.
shown-recent : (w : IntWindow) → IsValid w → shown w ≡ recent w.max_samples (take w.end w.window)
unfolding recent
shown-recent w v =
    ap (λ n. drop n (take w.end w.window))
      (omega (arith, length-take w.end w.window, v.storage, v.space, v.start))

stored :
    (w : IntWindow) (x : ℕ)
    → IsValid w
    → take (w.end + 1) (set w.window w.end x) ≡ take w.end w.window ++ (x ∷ [])
stored w x v =
    let next : w.end + 1 ≡ suc w.end = omega arith in
    rw next (take-set w.window w.end x (omega (arith, v.storage, v.space)))

-- What the window shows after a step.
shown_next :
    (w : IntWindow) (x : ℕ)
    → IsValid w
    → recent w.max_samples (shown w ++ (x ∷ []))
      ≡ recent w.max_samples (take (w.end + 1) (set w.window w.end x))
shown_next w x v =
    ap (λ l. recent w.max_samples (l ++ (x ∷ []))) (shown-recent w v)
    ∙ recent-append w.max_samples (take w.end w.window) x
    ∙ ap (recent w.max_samples) (sym (stored w x v))

abbrev Steps : IntWindow → ℕ → Type 0
Steps w x =
    (w' : IntWindow) × (add w x ≡ some w')
    × IsValid w'
    × (w'.max_samples ≡ w.max_samples)
    × (shown w' ≡ recent w.max_samples (shown w ++ (x ∷ [])))

step_inside : (w : IntWindow) (x : ℕ) → IsValid w → w.end + 1 < w.max_samples * 2 → Steps w x
unfolding recent
step_inside w x v h = (
  _,
  add_inside w x v h,
  record {
    positive = v.positive;
    small = v.small;
    storage = length-set w.window w.end x ∙ v.storage;
    space = h;
    start = refl;
  },
  refl,
  ap (λ n. drop n (take (w.end + 1) (set w.window w.end x)))
        (omega (
          arith,
          length-take (w.end + 1) (set w.window w.end x),
          length-set w.window w.end x,
          v.storage,
          h,
        ))
      ∙ sym (shown_next w x v),
)

step_at_end : (w : IntWindow) (x : ℕ) → IsValid w → w.end + 1 ≡ w.max_samples * 2 → Steps w x
unfolding recent
step_at_end w x v h =
    let ws : List ℕ = set w.window w.end x in
    let size : length ws ≡ w.max_samples * 2 = length-set w.window w.end x ∙ v.storage in
    let half : length (drop w.max_samples ws) ≡ w.max_samples =
      omega (arith, length-drop w.max_samples ws, size) in
    let whole : take (w.end + 1) ws ≡ ws =
      take_of_length-le (w.end + 1) ws (omega (arith, size, h)) in
    (
      _,
      add_at_end w x v h,
      record {
        positive = v.positive;
        small = v.small;
        storage =
            omega (arith, length-append (drop w.max_samples ws) (drop w.max_samples ws), half);
        space = omega (arith, v.positive);
        start = omega arith;
      },
      refl,
      ap (λ n. take n (drop w.max_samples ws ++ drop w.max_samples ws)) (sym half)
          ∙ take-append (drop w.max_samples ws) (drop w.max_samples ws)
          ∙ ap (λ n. drop n ws) (omega (arith, size))
          ∙ sym (shown_next w x v ∙ ap (recent w.max_samples) whole),
    )

step : (w : IntWindow) (x : ℕ) → IsValid w → Steps w x
step w x v = elim (Bool-cases (ltb (w.end + 1) (w.max_samples * 2))) [
  | inl e ↦ step_inside w x v (omega (tests, e))
  | inr e ↦ step_at_end w x v (ground (arith, e, v.space))
]

-- Samples that are added one after another.
unfoldable pub add_all : IntWindow → List ℕ → Option IntWindow
add_all w [] = some w
add_all w (x ∷ xs) = elim (add w x) [ none ↦ none | some w' ↦ add_all w' xs ]

abbrev Runs : IntWindow → List ℕ → List ℕ → Type 0
Runs w ys xs =
    (w' : IntWindow) × (add_all w xs ≡ some w')
    × (samples w' ≡ some (recent w.max_samples (ys ++ xs)))

runs :
    (xs ys : List ℕ) (w : IntWindow) → IsValid w → shown w ≡ recent w.max_samples ys → Runs w ys xs
unfolding add_all
runs [] ys w v h =
    (w, refl, samples-shown w v ∙ ap some (h ∙ ap (recent w.max_samples) (sym (append-nil ys))))
runs (x ∷ xs) ys w v h =
    let (w', added, v', same_max, shows) = step w x v in
    let now : shown w' ≡ recent w'.max_samples (ys ++ (x ∷ [])) =
      shows
      ∙ ap (λ l. recent w.max_samples (l ++ (x ∷ []))) h
      ∙ recent-append w.max_samples ys x
      ∙ ap (λ m. recent m (ys ++ (x ∷ []))) (sym same_max) in
    let (w'', rest, seen) = runs xs (ys ++ (x ∷ [])) w' v' now in
    (
      w'',
      rw (add_all, added) rest,
      seen
          ∙ ap (λ m. some (recent m ((ys ++ (x ∷ [])) ++ xs))) same_max
          ∙ ap (λ l. some (recent w.max_samples l)) (append_assoc ys (x ∷ []) xs),
    )

-- A new window with at least one and fewer than 2^31 samples takes any list of samples without a
-- panic, and then shows the last of them, at most as many as it is made for, in order.
pub window_shows_recent :
    (most : ℕ) (xs : List ℕ)
    → 0 < most
    → most * 2 < 2 ^ 32
    → (w : IntWindow) × (add_all (new_int_window most) xs ≡ some w)
      × (samples w ≡ some (recent most xs))
unfolding new_int_window recent
window_shows_recent most xs positive small =
    let none_left : 0 - most ≡ 0 = omega arith in
    runs xs [] (new_int_window most) (new_int_window-IsValid most positive small)
      (rw none_left refl)
