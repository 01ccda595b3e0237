-- ===== src/Mqueue/Window/Refine.antt =====
-- The window behaves as the queue of the entries that its slots hold, while none is discarded in
-- the middle: one theorem for each method.
use developer_gateway.Prelude.{
  ℕ, ◌+◌, ◌-◌, ◌*◌, ◌^◌, ◌≤◌, ◌<◌, ◌≡◌, refl, sym, ◌∙◌, ap, true, false, none, some, [], ◌∷◌, ◌++◌,
  length, get_elem?, set, min, ltb, ◌==◌, if◌then◌else◌, arith, All-replicate, inl, inr, Bool-cases,
  length-set, length-append, length-replicate, take_of_length-le, replicate,
}
use developer_gateway.Errors.{ok, err}
use developer_gateway.Mqueue.Window.{
  err_full, Slot, Window, empty_slot, new_window, make_room, reserve_at, reserve_next,
}
use developer_gateway.Mqueue.Window.Queue
use developer_gateway.Mqueue.Window.Queue.{Queue, Entry, completed, listing}
use developer_gateway.Mqueue.Window.Slots.{
  IsBlank, Holds, get_elem?-IsBlank, Holds-append, Holds-blank,
}
use developer_gateway.Mqueue.Window.Scans.{completed-append}

pub record Represents (w : Window) (q : Queue) : Type 0 where
  pub most : w.max_size ≡ q.most
  pub base : w.offset ≡ q.base
  pub size : length w.elements ≡ q.size
  pub unreserved : w.next_unreserved ≡ length q.entries
  pub unset : w.next_unset ≡ completed q.entries
  pub room : length q.entries < q.size
  pub fits : q.size ≤ q.most
  pub held : Holds q.base q.entries w.elements

-- No offset of the window is near the end of the 64-bit words.
abbrev pub IsSmall : Queue → Type 0
IsSmall q = (q.most < 2 ^ 63) × (q.base + q.most < 2 ^ 64)

-- A window of the sizes asked for is an empty queue.
pub new_window-Represents :
    (initial most : ℕ)
    → 0 < initial
    → initial ≤ most
    → Represents
        (new_window initial most)
        (record { base = 0; size = initial; most = most; entries = [] })
unfolding new_window
new_window-Represents initial most h k = record {
  most = ground arith;
  base = refl;
  size = ground (arith, length-replicate initial empty_slot);
  unreserved = refl;
  unset = refl;
  room = h;
  fits = k;
  held =
      let given : (if initial == 0 then 16 else initial) ≡ initial = ground arith in
      rw given (All-replicate IsBlank initial empty_slot (refl, refl, refl));
}

abbrev handed_out : Queue → Queue
handed_out q = record q { entries = q.entries ++ (none ∷ []) }

taken : Window → ℕ → Slot → Window
taken w i e = record w {
  elements = set w.elements i (record e { reserved = true; offset = w.offset + i });
  next_unreserved = i + 1;
}

reserve_at_lem :
    (w : Window) (i : ℕ) (e : Slot)
    → w.next_unreserved ≡ i
    → i + w.offset + 1 < 2 ^ 64
    → get_elem? w.elements i ≡ some e
    → e.reserved ≡ false
    → e.is_set ≡ false
    → reserve_at w ≡ (ok (w.offset + i), taken w i e)
unfolding reserve_at taken
reserve_at_lem w i e n small found free unset = ground arith

reserve_at-Represents :
    (w : Window) (q : Queue)
    → Represents w q
    → IsSmall q
    → length q.entries + 1 < q.size
    → ((reserve_at w).0 ≡ ok (q.base + length q.entries))
      × Represents (reserve_at w).1 (handed_out q)
reserve_at-Represents w q r s room =
    let i = length q.entries in
    let (e, found, blank) =
      get_elem?-IsBlank q.base i q.entries w.elements r.held (omega arith) (omega arith) in
    rw (reserve_at_lem w i e r.unreserved (omega arith) found blank.0 blank.1) (
      unfold taken in
      (
        ap (λ b. ok (b + i)) r.base,
        record {
          most = r.most;
          base = r.base;
          size = length-set w.elements i _ ∙ r.size;
          unreserved = omega (arith, length-append q.entries (none ∷ []));
          unset = r.unset ∙ sym (completed-append q.entries);
          room = omega (arith, length-append q.entries (none ∷ []));
          fits = r.fits;
          held =
              Holds-append q.base q.entries w.elements _ r.held (omega arith)
                (refl, blank.1, blank.2, ap (λ b. b + i) r.base);
        },
      ))

grown : Window → ℕ → Window
grown w n = record w { elements = w.elements ++ replicate (n - length w.elements) empty_slot }

make_room_lem :
    (w : Window)
    → 0 < length w.elements
    → length w.elements < w.max_size
    → w.max_size < 2 ^ 63
    → let n = min (length w.elements * 2) w.max_size in
      make_room w ≡ (n - length w.elements, grown w n)
unfolding make_room grown
make_room_lem w p full small = ground (
  arith,
  take_of_length-le w.max_size w.elements,
  take_of_length-le (length w.elements * 2) w.elements,
)

larger : Queue → Queue
larger q = record q { size = min (q.size * 2) q.most }

grown-Represents :
    (w : Window) (q : Queue)
    → Represents w q
    → q.size < q.most
    → Represents (grown w (min (length w.elements * 2) w.max_size)) (larger q)
unfolding grown larger
grown-Represents w q r more =
    let n : ℕ = min (length w.elements * 2) w.max_size in
    let added = replicate (n - length w.elements) empty_slot in
    record {
      most = r.most;
      base = r.base;
      size = omega (
        arith,
        length-append w.elements added,
        length-replicate (n - length w.elements) empty_slot,
        r.size,
        r.most,
        r.room,
      );
      unreserved = r.unreserved;
      unset = r.unset;
      room = omega (arith, r.room);
      fits = omega arith;
      held =
          Holds-blank q.base q.entries w.elements added r.held
            (All-replicate IsBlank (n - length w.elements) empty_slot (refl, refl, refl));
    }

module _ (w : Window) (p : 0 < length w.elements) (small : w.max_size < 2 ^ 63)
    (fits : length w.elements ≤ w.max_size) where
  reserve_next_here : w.next_unreserved + 1 < length w.elements → reserve_next w ≡ reserve_at w
  unfolding reserve_next
  reserve_next_here h = ground arith

  reserve_next-grown :
      length w.elements ≤ w.next_unreserved + 1
      → length w.elements < w.max_size
      → reserve_next w ≡ reserve_at (grown w (min (length w.elements * 2) w.max_size))
  unfolding reserve_next
  reserve_next-grown h more = ground (arith, make_room_lem w p more small)

  reserve_next_full :
      length w.elements ≤ w.next_unreserved + 1
      → w.max_size ≤ length w.elements
      → reserve_next w ≡ (err err_full, w)
  unfolding reserve_next make_room
  reserve_next_full h most = ground arith

-- `ReserveNext` hands out the next offset of the queue, grows the storage when it must, and refuses
-- when the queue is full.
pub next_refines :
    (w : Window) (q : Queue)
    → Represents w q
    → IsSmall q
    → ((reserve_next w).0 ≡ (Queue.next q).0) × Represents (reserve_next w).1 (Queue.next q).1
unfolding Queue.next
next_refines w q r s = elim (Bool-cases (ltb (length q.entries + 1) q.size)) [
  | inl here ↦
      rw (here, reserve_next_here w (omega arith) (omega arith) (omega arith) (ground arith))
        (reserve_at-Represents w q r s (ground arith))
  | inr last ↦ elim (Bool-cases (ltb q.size q.most)) [
    | inl more ↦
        let larger_r = grown-Represents w q r (ground arith) in
        rw
          (
            last,
            more,
            reserve_next-grown w (omega arith) (omega arith) (omega arith) (ground arith)
                (ground arith),
          )
          (unfold larger in reserve_at-Represents _ _ larger_r s (ground arith))
    | inr most ↦
        rw
          (
            last,
            most,
            reserve_next_full w (omega arith) (omega arith) (omega arith) (ground arith)
                (ground arith),
          )
          (refl, r)
  ]
]
