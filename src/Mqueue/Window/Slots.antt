-- ===== src/Mqueue/Window/Slots.antt =====
-- How the slots of a window hold the entries of a queue, and what each access to them does.
use native.Mathlib.Nat.{add-zero}
use developer_gateway.Prelude.{
  ℕ, zero, suc, ◌+◌, ◌≤◌, ◌<◌, ◌≡◌, refl, true, false, none, some, List, [], ◌∷◌, ◌++◌, map, length,
  get_elem?, set, drop, arith, All, All-drop,
}
use developer_gateway.Mqueue.Window.{Slot}
use developer_gateway.Mqueue.Window.Slide.{clear}
use developer_gateway.Mqueue.Window.Queue.{Entry}

abbrev pub IsBlank : Slot → Type 0
IsBlank e = (e.reserved ≡ false) × (e.is_set ≡ false) × (e.discarded ≡ false)

abbrev pub IsKept : Slot → Type 0
IsKept e = e.discarded ≡ false

abbrev pub Shows : ℕ → Entry → Slot → Type 0
Shows offset none e =
    (e.reserved ≡ true) × (e.is_set ≡ false) × (e.discarded ≡ false) × (e.offset ≡ offset)
Shows offset (some (t, v)) e =
    (e.reserved ≡ true)
    × (e.is_set ≡ true)
    × (e.discarded ≡ false)
    × (e.offset ≡ offset)
    × (e.type ≡ t)
    × (e.value ≡ v)

-- The first slots show the entries, from the offset on; the others are blank.
abbrev pub Holds : ℕ → List Entry → List Slot → Type 0
Holds offset [] es = All IsBlank es
Holds offset (s ∷ ss) [] = ⊥
Holds offset (s ∷ ss) (e ∷ es) = Shows offset s e × Holds (offset + 1) ss es

Shows-IsKept : (offset : ℕ) (s : Entry) (e : Slot) → Shows offset s e → IsKept e
Shows-IsKept offset none e h = h.2
Shows-IsKept offset (some (t, v)) e h = h.2

IsBlank-IsKept : (es : List Slot) → All IsBlank es → All IsKept es
IsBlank-IsKept [] h = tt
IsBlank-IsKept (e ∷ es) h = (h.0.2, IsBlank-IsKept es h.1)

pub Holds-IsKept :
    (offset : ℕ) (ss : List Entry) (es : List Slot) → Holds offset ss es → All IsKept es
Holds-IsKept offset [] es h = IsBlank-IsKept es h
Holds-IsKept offset (s ∷ ss) [] h = absurd h
Holds-IsKept offset (s ∷ ss) (e ∷ es) h =
    (Shows-IsKept offset s e h.0, Holds-IsKept (offset + 1) ss es h.1)

-- A slot that has been handed out shows its entry.
pub get_elem?-Shows :
    (offset i : ℕ) (ss : List Entry) (es : List Slot) (s : Entry)
    → Holds offset ss es
    → get_elem? ss i ≡ some s
    → (e : Slot) × (get_elem? es i ≡ some e) × Shows (offset + i) s e
get_elem?-Shows offset i [] es s h p = cc
get_elem?-Shows offset i (x ∷ ss) [] s h p = absurd h
get_elem?-Shows offset zero (none ∷ ss) (e ∷ es) none h p = (e, refl, rw add-zero h.0)
get_elem?-Shows offset zero (none ∷ ss) (e ∷ es) (some y) h p = cc
get_elem?-Shows offset zero (some x ∷ ss) (e ∷ es) none h p = cc
get_elem?-Shows offset zero (some (t, v) ∷ ss) (e ∷ es) (some (t', v')) h p =
    (e, refl, ground arith)
get_elem?-Shows offset (suc i) (x ∷ ss) (e ∷ es) s h p =
    let (f, found, shown) = get_elem?-Shows (offset + 1) i ss es s h.1 p in
    let same : offset + 1 + i ≡ offset + suc i = omega arith in (f, found, rw same at shown)

-- Any other slot of the array is blank.
pub get_elem?-IsBlank :
    (offset i : ℕ) (ss : List Entry) (es : List Slot)
    → Holds offset ss es
    → length ss ≤ i
    → i < length es
    → (e : Slot) × (get_elem? es i ≡ some e) × IsBlank e
get_elem?-IsBlank offset i [] [] h p q = absurd (omega arith)
get_elem?-IsBlank offset zero [] (e ∷ es) h p q = (e, refl, h.0)
get_elem?-IsBlank offset (suc i) [] (e ∷ es) h p q =
    get_elem?-IsBlank offset i [] es h.1 (omega arith) (omega arith)
get_elem?-IsBlank offset i (s ∷ ss) [] h p q = absurd h
get_elem?-IsBlank offset zero (s ∷ ss) (e ∷ es) h p q = absurd (omega arith)
get_elem?-IsBlank offset (suc i) (s ∷ ss) (e ∷ es) h p q =
    get_elem?-IsBlank (offset + 1) i ss es h.1 (omega arith) (omega arith)

pub Holds-set :
    (offset i : ℕ) (ss : List Entry) (es : List Slot) (s : Entry) (e : Slot)
    → Holds offset ss es
    → i < length ss
    → Shows (offset + i) s e
    → Holds offset (set ss i s) (set es i e)
Holds-set offset i [] es s e h p q = absurd (omega arith)
Holds-set offset i (x ∷ ss) [] s e h p q = absurd h
Holds-set offset zero (x ∷ ss) (y ∷ es) s e h p q = (rw add-zero at q, h.1)
Holds-set offset (suc i) (x ∷ ss) (y ∷ es) s e h p q =
    let same : offset + suc i ≡ offset + 1 + i = omega arith in
    (h.0, Holds-set (offset + 1) i ss es s e h.1 (omega arith) (rw same at q))

-- The next slot is handed out.
pub Holds-append :
    (offset : ℕ) (ss : List Entry) (es : List Slot) (e : Slot)
    → Holds offset ss es
    → length ss < length es
    → Shows (offset + length ss) none e
    → Holds offset (ss ++ (none ∷ [])) (set es (length ss) e)
Holds-append offset [] [] e h p q = absurd (omega arith)
Holds-append offset [] (x ∷ es) e h p q = (rw add-zero at q, h.1)
Holds-append offset (s ∷ ss) [] e h p q = absurd h
Holds-append offset (s ∷ ss) (x ∷ es) e h p q =
    let same : offset + length (s ∷ ss) ≡ offset + 1 + length ss = omega arith in
    (h.0, Holds-append (offset + 1) ss es e h.1 (omega arith) (rw same at q))

IsBlank-append : (es fs : List Slot) → All IsBlank es → All IsBlank fs → All IsBlank (es ++ fs)
IsBlank-append [] fs h k = k
IsBlank-append (e ∷ es) fs h k = (h.0, IsBlank-append es fs h.1 k)

-- Blank slots may follow.
pub Holds-blank :
    (offset : ℕ) (ss : List Entry) (es fs : List Slot)
    → Holds offset ss es
    → All IsBlank fs
    → Holds offset ss (es ++ fs)
Holds-blank offset [] es fs h k = IsBlank-append es fs h k
Holds-blank offset (s ∷ ss) [] fs h k = absurd h
Holds-blank offset (s ∷ ss) (e ∷ es) fs h k = (h.0, Holds-blank (offset + 1) ss es fs h.1 k)

pub Holds-drop :
    (offset n : ℕ) (ss : List Entry) (es : List Slot)
    → Holds offset ss es
    → Holds (offset + n) (drop n ss) (drop n es)
Holds-drop offset zero ss es h = rw add-zero h
Holds-drop offset (suc n) [] es h = All-drop IsBlank (suc n) es h
Holds-drop offset (suc n) (s ∷ ss) [] h = absurd h
Holds-drop offset (suc n) (s ∷ ss) (e ∷ es) h =
    let same : offset + suc n ≡ offset + 1 + n = omega arith in
    rw same (Holds-drop (offset + 1) n ss es h.1)

-- Slots that are not discarded are blank once `slide` has cleared them.
pub clear-IsBlank : (es : List Slot) → All IsKept es → All IsBlank (map clear es)
clear-IsBlank [] h = tt
clear-IsBlank (e ∷ es) h = ((refl, refl, h.0), clear-IsBlank es h.1)
