-- ===== src/Mqueue/Window/Scans.antt =====
-- What the loops over the slots of a window find, in terms of the entries that the slots hold.
use native.Mathlib.Nat.{add-zero}
use developer_gateway.Prelude.{
  ℕ, zero, suc, ◌+◌, ◌≤◌, ◌<◌, ◌≡◌, ◌≢◌, refl, ap, none, some, List, [], ◌∷◌, ◌++◌, length,
  get_elem?, set, take, drop, arith, All, String,
}
use developer_gateway.Mqueue.Window.{Slot, find_unset, collect}
use developer_gateway.Mqueue.Window.Slide.{skip_discarded}
use developer_gateway.Mqueue.Window.Queue.{Entry, completed, listing}
use developer_gateway.Mqueue.Window.Slots.{IsBlank, IsKept, Holds}

collect_blank : (end i : ℕ) (es : List Slot) → All IsBlank es → collect end i es ≡ []
unfolding collect
collect_blank end i [] h = refl
collect_blank end i (e ∷ es) h = ground (arith, collect_blank end (i + 1) es h.1)

collect_past : (end i : ℕ) (es : List Slot) → end ≤ i → collect end i es ≡ []
unfolding collect
collect_past end i [] h = refl
collect_past end i (e ∷ es) h = ground arith

-- `Get` returns the completed entries of its range, in order, with their offsets.
pub collect-listing :
    (end offset i count : ℕ) (ss : List Entry) (es : List Slot)
    → Holds offset ss es
    → end ≡ count + i
    → collect end i es ≡ listing offset (take count ss)
unfolding collect
collect-listing end offset i zero ss es h p = collect_past end i es (omega arith)
collect-listing end offset i (suc count) [] es h p = collect_blank end i es h
collect-listing end offset i (suc count) (s ∷ ss) [] h p = absurd h
collect-listing end offset i (suc count) (none ∷ ss) (e ∷ es) h p =
    ground (arith, collect-listing end (offset + 1) (i + 1) count ss es h.1 (omega arith))
collect-listing end offset i (suc count) (some (t, v) ∷ ss) (e ∷ es) h p =
    ground (arith, collect-listing end (offset + 1) (i + 1) count ss es h.1 (omega arith))

find_unset_blank :
    (i : ℕ) (es : List Slot) → All IsBlank es → 0 < length es → find_unset i es ≡ some i
unfolding find_unset
find_unset_blank i [] h p = absurd (omega arith)
find_unset_blank i (e ∷ es) h p = ground arith

-- The scan for an unset slot passes the completed entries and no other.
pub find_unset-completed :
    (offset i : ℕ) (ss : List Entry) (es : List Slot)
    → Holds offset ss es
    → length ss < length es
    → find_unset i es ≡ some (i + completed ss)
unfolding find_unset
find_unset-completed offset i [] es h p = rw add-zero (find_unset_blank i es h (omega arith))
find_unset-completed offset i (s ∷ ss) [] h p = absurd h
find_unset-completed offset i (none ∷ ss) (e ∷ es) h p = rw add-zero (ground arith)
find_unset-completed offset i (some (t, v) ∷ ss) (e ∷ es) h p =
    ground (arith, find_unset-completed (offset + 1) (i + 1) ss es h.1 (omega arith))

-- No slot is skipped where none is discarded.
pub skip_discarded_kept :
    (next_unset limit : ℕ) (es : List Slot)
    → All IsKept es
    → 0 < length es
    → skip_discarded next_unset limit es ≡ some limit
unfolding skip_discarded
skip_discarded_kept next_unset limit [] h p = absurd (omega arith)
skip_discarded_kept next_unset limit (e ∷ es) h p = ground arith

pub completed-le : (ss : List Entry) → completed ss ≤ length ss
completed-le [] = omega arith
completed-le (none ∷ ss) = omega arith
completed-le (some _ ∷ ss) = omega (arith, completed-le ss)

pub completed-append : (ss : List Entry) → completed (ss ++ (none ∷ [])) ≡ completed ss
completed-append [] = refl
completed-append (none ∷ ss) = refl
completed-append (some _ ∷ ss) = ap suc (completed-append ss)

pub completed-drop :
    (n : ℕ) (ss : List Entry) → n ≤ completed ss → n + completed (drop n ss) ≡ completed ss
completed-drop zero ss h = omega arith
completed-drop (suc n) [] h = absurd (omega arith)
completed-drop (suc n) (none ∷ ss) h = absurd (omega arith)
completed-drop (suc n) (some _ ∷ ss) h = omega (arith, completed-drop n ss (omega arith))

-- Completing an entry that is not the first pending one does not move the first pending one.
pub completed-set_ne :
    (i : ℕ) (ss : List Entry) (y : String × String)
    → get_elem? ss i ≡ some none
    → i ≢ completed ss
    → completed (set ss i (some y)) ≡ completed ss
completed-set_ne i [] y p h = refl
completed-set_ne zero (none ∷ ss) y p h = absurd (h refl)
completed-set_ne (suc i) (none ∷ ss) y p h = refl
completed-set_ne zero (some x ∷ ss) y p h = cc
completed-set_ne (suc i) (some x ∷ ss) y p h =
    ap suc (completed-set_ne i ss y p (λ e. h (ap suc e)))

pub completed-le-set :
    (i : ℕ) (ss : List Entry) (y : String × String) → completed ss ≤ completed (set ss i (some y))
completed-le-set i [] y = omega arith
completed-le-set zero (none ∷ ss) y = omega arith
completed-le-set (suc i) (none ∷ ss) y = omega arith
completed-le-set zero (some x ∷ ss) y = omega arith
completed-le-set (suc i) (some x ∷ ss) y = omega (arith, completed-le-set i ss y)
