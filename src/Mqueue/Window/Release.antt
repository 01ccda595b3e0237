-- ===== src/Mqueue/Window/Release.antt =====
-- `Slide` of the window against `slide` of the queue.
use native.Mathlib.Nat.{add-zero}
use developer_gateway.Prelude.{
  ℕ, zero, suc, ◌+◌, ◌-◌, ◌^◌, ◌≤◌, ◌<◌, ◌≡◌, refl, sym, ◌∙◌, some, map, length, drop, min, ltb,
  arith, All-drop, inl, inr, Bool-cases, length-append, length-drop, length-map,
}
use developer_gateway.Prelude.Words.{add64, sub64}
use developer_gateway.Errors.{ok, err}
use developer_gateway.Mqueue.Window.{Window, err_offset_out_of_window}
use developer_gateway.Mqueue.Window.Slide.{slide, slide_by, shift, clear, skip_discarded}
use developer_gateway.Mqueue.Window.Queue
use developer_gateway.Mqueue.Window.Queue.{Queue, Entry, completed, listing}
use developer_gateway.Mqueue.Window.Slots.{
  IsKept, Holds-blank, Holds-drop, Holds-IsKept, clear-IsBlank,
}
use developer_gateway.Mqueue.Window.Scans.{skip_discarded_kept, completed-le, completed-drop}
use developer_gateway.Mqueue.Window.Refine.{Represents, IsSmall}

abbrev moved : ℕ → Window → Window
moved n w = record w {
  elements = shift n w.elements;
  offset = add64 w.offset n;
  next_unset = sub64 w.next_unset n;
  next_unreserved = sub64 w.next_unreserved n;
}

slide_by_lem : (n : ℕ) (w : Window) → slide_by (suc n) w ≡ (ok (suc n), moved (suc n) w)
unfolding slide_by
slide_by_lem n w = ground arith

slide_by-Represents :
    (n : ℕ) (w : Window) (q : Queue)
    → Represents w q
    → IsSmall q
    → n ≤ completed q.entries
    → ((slide_by n w).0 ≡ ok n)
      × Represents (slide_by n w).1 (record q { base = q.base + n; entries = drop n q.entries })
unfolding slide_by
slide_by-Represents zero w q r s h = (
  refl,
  record {
    most = r.most;
    base = r.base ∙ sym (add-zero q.base);
    size = r.size;
    unreserved = r.unreserved;
    unset = r.unset;
    room = r.room;
    fits = r.fits;
    held = rw add-zero r.held;
  },
)
slide_by-Represents (suc n) w q r s h =
    let limit : ℕ = suc n in
    let tail = drop (length w.elements - limit) w.elements in
    let kept =
      All-drop IsKept (length w.elements - limit) w.elements
        (Holds-IsKept q.base q.entries w.elements r.held) in
    let handed = length-drop limit q.entries in
    let most_handed = completed-le q.entries in
    rw (slide_by_lem n w) (
      refl,
      record {
        most = r.most;
        base = omega (arith, r.base, r.fits, r.room);
        size = omega (
          arith,
          length-append (drop limit w.elements) (map clear tail),
          length-map tail clear,
          length-drop limit w.elements,
          length-drop (length w.elements - limit) w.elements,
          r.size,
          r.room,
          most_handed,
        );
        unreserved = omega (arith, handed, most_handed, r.unreserved, r.room, r.fits);
        unset =
            omega (arith, completed-drop limit q.entries h, most_handed, r.unset, r.room, r.fits);
        room = omega (arith, handed, r.room);
        fits = r.fits;
        held =
            Holds-blank (q.base + limit) (drop limit q.entries) (drop limit w.elements)
              (map clear tail) (Holds-drop q.base limit q.entries w.elements r.held)
              (clear-IsBlank tail kept);
      },
    )

slide_outside : (w : Window) (offset : ℕ) → offset < w.offset → slide w offset ≡ (ok 0, w)
unfolding slide
slide_outside w offset h = ground arith

slide_beyond :
    (w : Window) (offset : ℕ)
    → w.offset + length w.elements < 2 ^ 64
    → w.offset + length w.elements < offset
    → slide w offset ≡ (err err_offset_out_of_window, w)
unfolding slide
slide_beyond w offset s h = ground arith

slide_inside :
    (w : Window) (offset n : ℕ)
    → offset < 2 ^ 64
    → w.offset + length w.elements < 2 ^ 64
    → w.offset ≤ offset
    → offset ≤ w.offset + length w.elements
    → n ≡ min (offset - w.offset) w.next_unset
    → skip_discarded w.next_unset n (drop n w.elements) ≡ some n
    → slide w offset ≡ slide_by n w
unfolding slide
slide_inside w offset n word s low high e skip = ground arith

-- `Slide` gives up the completed offsets below the given one, up to the first pending offset.
pub slide_refines :
    (w : Window) (q : Queue) (offset : ℕ)
    → Represents w q
    → IsSmall q
    → offset < 2 ^ 64
    → ((slide w offset).0 ≡ (Queue.slide q offset).0)
      × Represents (slide w offset).1 (Queue.slide q offset).1
unfolding Queue.slide
slide_refines w q offset r s word =
    let small : w.offset + length w.elements < 2 ^ 64 = omega arith in
    elim (Bool-cases (ltb offset q.base)) [
      | inl below ↦ rw (below, slide_outside w offset (ground arith)) (refl, r)
      | inr above ↦ elim (Bool-cases (ltb (q.base + q.size) offset)) [
        | inl beyond ↦ rw (above, beyond, slide_beyond w offset small (ground arith)) (refl, r)
        | inr within ↦
            let n : ℕ = min (offset - q.base) (completed q.entries) in
            let kept =
              All-drop IsKept n w.elements (Holds-IsKept q.base q.entries w.elements r.held) in
            let skip =
              skip_discarded_kept w.next_unset n (drop n w.elements) kept
                (omega (arith, length-drop n w.elements, completed-le q.entries, r.room, r.size)) in
            rw
              (
                above,
                within,
                slide_inside w offset n word small (ground arith) (ground arith)
                    (omega (arith, r.base, r.unset)) skip,
              )
              (slide_by-Represents n w q r s (omega arith))
      ]
    ]
