-- ===== src/Mqueue/Window/Marks.antt =====
-- What `Discard` and `Slide` leave behind when elements are discarded in the middle of a window:
-- marks on slots that are handed out again, and an unset index that has moved too far.
use developer_gateway.Prelude.{
  ℕ, zero, suc, ◌+◌, ◌-◌, ◌^◌, ◌≤◌, ◌<◌, ◌≡◌, ◌≢◌, refl, ◌∙◌, true, false, some, List, [], ◌∷◌,
  ◌++◌, map, length, get_elem?, take, drop, ltb, ◌==◌, arith, String, inl, inr, Bool-cases,
  length-set, length-drop, get_elem?-drop, get_elem?-append, get_elem?-set_self,
}
use developer_gateway.Errors.{ok, err}
use developer_gateway.Mqueue.Window.{
  Slot, Window, reserve_at, reserve_next, update_unset_index, set_value, err_offset_already_set,
}
use developer_gateway.Mqueue.Window.Slide.{
  slide_by, clear, Marks, mark_discarded, mark, settle, discard,
}

get_elem?-map {ℓ κ} :
    {A : Type ℓ} {B : Type κ} (f : A → B) (xs : List A) (i : ℕ) (a : A)
    → get_elem? xs i ≡ some a
    → get_elem? (map f xs) i ≡ some (f a)
get_elem?-map f [] i a h = cc
get_elem?-map f (x ∷ xs) zero a h = cc
get_elem?-map f (x ∷ xs) (suc i) a h = get_elem?-map f xs i a h

-- When a window slides, a slot of its tail becomes free and keeps the mark that it had: of slot `i`
-- the slide resets the flags `Reserved` and `Set`, and neither `Discarded` nor `Type`.
slide_by-keeps_marks :
    (w : Window) (n i : ℕ) (e : Slot)
    → 0 < n
    → n ≤ length w.elements
    → length w.elements - n ≤ i
    → get_elem? w.elements i ≡ some e
    → (f : Slot) × (get_elem? (slide_by n w).1.elements i ≡ some f)
      × (f.reserved ≡ false)
      × (f.is_set ≡ false)
      × (f.discarded ≡ e.discarded)
      × (f.type ≡ e.type)
unfolding slide_by
slide_by-keeps_marks w n i e p q low found =
    let k = length w.elements - n in
    let j = i - k in
    let at : k + j ≡ i = omega arith in
    let old : get_elem? (drop k w.elements) j ≡ some e = rw (get_elem?-drop, at) found in
    let new = get_elem?-map clear (drop k w.elements) j e old in
    let front : length (drop n w.elements) ≡ k = length-drop n w.elements in
    let back = get_elem?-append (drop n w.elements) (map clear (drop k w.elements)) j in
    let moved : (n == 0) ≡ false = ground arith in
    (clear e, rw moved (ground (arith, at, new, front, back)), refl, refl, refl, refl)

-- An offset that `ReserveNext` hands out in a slot with an old mark can never be completed: `Set`
-- reports that it is set already, and changes nothing.
marked_slot_refuses :
    (w : Window) (e : Slot) (t v : String)
    → w.next_unreserved + 1 < length w.elements
    → w.offset + length w.elements < 2 ^ 64
    → get_elem? w.elements w.next_unreserved ≡ some e
    → e.reserved ≡ false
    → e.is_set ≡ false
    → e.discarded ≡ true
    → let handed = reserve_next w in
      (handed.0 ≡ ok (w.offset + w.next_unreserved))
      × (set_value handed.1 (w.offset + w.next_unreserved) t v
          ≡ (err err_offset_already_set, handed.1))
unfolding reserve_next reserve_at set_value
marked_slot_refuses w e t v room small found free unset marked = ground (
  arith,
  get_elem?-set_self w.elements w.next_unreserved
      (record e { reserved = true; offset = w.offset + w.next_unreserved }),
  length-set w.elements w.next_unreserved
      (record e { reserved = true; offset = w.offset + w.next_unreserved }),
)

mark_discarded_done :
    (es : List Slot) (end handed i : ℕ) (m : Marks)
    → end ≤ i
    → mark_discarded end handed i m es ≡ (es, m, true)
unfolding mark_discarded
mark_discarded_done [] end handed i m h = ground arith
mark_discarded_done (e ∷ es) end handed i m h = ground arith

mark_discarded_step :
    (e : Slot) (es fs : List Slot) (end handed i : ℕ) (m n : Marks)
    → i < end
    → i < handed
    → mark_discarded end handed (i + 1) (mark i m) es ≡ (fs, n, true)
    → mark_discarded end handed i m (e ∷ es) ≡ ((record e { discarded = true }) ∷ fs, n, true)
unfolding mark_discarded
mark_discarded_step e es fs end handed i m n h k rest = ground arith

-- Once the loop of `Discard` starts below the unset index and reaches it, it moves the index one
-- past its own end.
mark_discarded-next_unset :
    (es : List Slot) (end handed i : ℕ) (m : Marks)
    → i < end
    → end ≤ handed
    → end ≤ i + length es
    → suc i ≤ m.next_unset
    → m.next_unset ≤ end
    → handed < 2 ^ 63
    → m.max_contiguous ≤ i
    → (fs : List Slot) × (n : Marks) × (mark_discarded end handed i m es ≡ (fs, n, true))
      × (n.next_unset ≡ end + 1)
      × (n.max_contiguous ≡ m.max_contiguous)
mark_discarded-next_unset [] end handed i m p q r a b s c = absurd (omega arith)
mark_discarded-next_unset (e ∷ es) end handed i m p q r a b s c =
    let same : (mark i m).max_contiguous ≡ m.max_contiguous = ground arith in
    elim (Bool-cases (ltb (i + 1) end)) [
      | inl more ↦
          let (fs, n, rest, unset, contiguous) =
            mark_discarded-next_unset es end handed (i + 1) (mark i m) (ground arith) q
              (omega arith) (ground arith) (ground arith) s (ground arith) in
          (
            (record e { discarded = true }) ∷ fs,
            n,
            mark_discarded_step e es fs end handed i m n p (omega arith) rest,
            unset,
            contiguous ∙ same,
          )
      | inr last ↦ (
        (record e { discarded = true }) ∷ es,
        mark i m,
        mark_discarded_step e es es end handed i m (mark i m) p (omega arith)
            (mark_discarded_done es end handed (i + 1) (mark i m) (ground arith)),
        ground arith,
        same,
      )
    ]

settle_inside :
    (index : ℕ) (m : Marks) (w : Window)
    → 0 < index
    → w.next_unset ≢ m.max_contiguous
    → settle index m w ≡ (ok m.counter, w)
unfolding settle update_unset_index
settle_inside index m w h k = ground arith

discard_marked :
    (w : Window) (index count : ℕ) (es : List Slot) (m : Marks)
    → 0 < count
    → index ≤ length w.elements
    → index + count < 2 ^ 64
    → w.offset + length w.elements < 2 ^ 64
    → mark_discarded
        (index + count)
        w.next_unreserved
        index
        (record { counter = 0; max_contiguous = index; next_unset = w.next_unset })
        (drop index w.elements)
      ≡ (es, m, true)
    → discard w (w.offset + index) count
      ≡ settle index m
          (record w { elements = take index w.elements ++ es; next_unset = m.next_unset })
unfolding discard
discard_marked w index count es m p q r s loop = ground arith

-- A `Discard` whose range begins inside the completed elements, after the first, and reaches the
-- first element that is not, leaves the unset index one past the end of the range, whatever the
-- state of the element there.
discard_overshoots :
    (w : Window) (index count : ℕ)
    → 0 < index
    → index < w.next_unset
    → w.next_unset ≤ index + count
    → index + count ≤ w.next_unreserved
    → w.next_unreserved ≤ length w.elements
    → w.next_unreserved < 2 ^ 63
    → w.offset + length w.elements < 2 ^ 64
    → (discard w (w.offset + index) count).1.next_unset ≡ index + count + 1
discard_overshoots w index count p q r s t small word =
    let start : Marks = record { counter = 0; max_contiguous = index; next_unset = w.next_unset } in
    let (es, m, loop, unset, contiguous) =
      mark_discarded-next_unset (drop index w.elements) (index + count) w.next_unreserved index
        start (omega arith) s (omega (arith, length-drop index w.elements)) q r small
        (omega arith) in
    let marked =
      discard_marked w index count es m (omega arith) (omega arith) (omega arith) word loop in
    rw
      (
        marked,
        settle_inside index m
            (record w { elements = take index w.elements ++ es; next_unset = m.next_unset }) p
            (λ h. omega (arith, h, unset, contiguous)),
      )
      unset
