-- ===== src/Mqueue/Window/Slide.antt =====
-- `slide`, `Slide` and `Discard` of mqueue/mem/window.go: how a window gives up elements.
use developer_gateway.Prelude.{
  ℕ, ◌+◌, ◌-◌, Bool, not, true, false, ◌&&◌, Option, none, some, List, [], ◌∷◌, ◌++◌, map, length,
  take, drop, ltb, ◌==◌, if◌then◌else◌,
}
use developer_gateway.Prelude.Words.{add64, sub64}
use developer_gateway.Errors.{Outcome, ok, err, panic}
use developer_gateway.Mqueue.Window.{
  Slot, Window, update_unset_index, out_of_window, err_offset_out_of_window,
}

-- The loop of `slide` over `w.elements[limit:]`; `none` is a read past the end.
unfoldable pub skip_discarded : (next_unset limit : ℕ) → List Slot → Option ℕ
skip_discarded next_unset limit [] = if ltb limit next_unset then none else some limit
skip_discarded next_unset limit (e ∷ es) =
    if ltb limit next_unset && e.discarded
    then skip_discarded next_unset (limit + 1) es
    else some limit

-- What `slide` resets of a slot. It keeps `Discarded` and `Type`.
abbrev pub clear : Slot → Slot
clear e = record e { is_set = false; reserved = false; offset = 0; value = "" }

-- `copy(w.elements, w.elements[limit:])`, and the loop that clears the tail, where the copy has
-- left the old elements.
abbrev pub shift : ℕ → List Slot → List Slot
shift limit es = drop limit es ++ map clear (drop (length es - limit) es)

-- The end of `slide`, at the limit that the loop has found.
unfoldable pub slide_by : ℕ → Window → Outcome ℕ × Window
slide_by limit w = if limit == 0 then (ok 0, w) else (
  ok limit,
  record w {
    elements = shift limit w.elements;
    offset = add64 w.offset limit;
    next_unset = sub64 w.next_unset limit;
    next_unreserved = sub64 w.next_unreserved limit;
  },
)

unfoldable pub slide : Window → ℕ → Outcome ℕ × Window
slide w offset =
    let distance = sub64 offset w.offset in
    let limit : ℕ = if ltb w.next_unset distance then w.next_unset else distance in
    if ltb offset w.offset
    then (ok 0, w)
    else if ltb (add64 w.offset (length w.elements)) offset
    then (err err_offset_out_of_window, w)
    else elim (skip_discarded w.next_unset limit (drop limit w.elements)) [
      | none ↦ (panic, w)
      | some limit' ↦ slide_by limit' w
    ]

-- The variables of the loop of `Discard`.
pub record Marks : Type 0 where
  pub counter : ℕ
  pub max_contiguous : ℕ
  pub next_unset : ℕ

-- One round of that loop, but for the write to the element.
abbrev pub mark : ℕ → Marks → Marks
mark i m = record {
  counter = add64 m.counter 1;
  max_contiguous =
      if i == sub64 m.max_contiguous 1 then add64 m.max_contiguous 1 else m.max_contiguous;
  next_unset = if i == sub64 m.next_unset 1 then add64 m.next_unset 1 else m.next_unset;
}

-- The loop over `w.elements[i:]`, where `end` is `index+count`: the elements after it, the variables, and
-- whether it comes to its end. A write past the last element is a panic, which leaves what is done.
unfoldable pub mark_discarded :
    (end next_unreserved i : ℕ) → Marks → List Slot → List Slot × Marks × Bool
mark_discarded end next_unreserved i m [] = ([], m, not (ltb i end && ltb i next_unreserved))
mark_discarded end next_unreserved i m (e ∷ es) =
    let (es', m', ended) = mark_discarded end next_unreserved (i + 1) (mark i m) es in
    if ltb i end && ltb i next_unreserved
    then ((record e { discarded = true }) ∷ es', m', ended)
    else (e ∷ es, m, true)

-- What `Discard` does after its loop: a failing `Slide` is a panic.
unfoldable pub settle : (index : ℕ) → Marks → Window → Outcome ℕ × Window
settle index m w =
    let w' = update_unset_index m.max_contiguous w in
    let (slid, w'') = slide w' (add64 (add64 m.max_contiguous w'.offset) 1) in
    if index == 0
    then elim slid [ ok n ↦ (ok m.counter, w'') | _ ↦ (panic, w'') ]
    else (ok m.counter, w')

unfoldable pub discard : Window → (offset count : ℕ) → Outcome ℕ × Window
discard w offset count =
    let index = sub64 offset w.offset in
    let start : Marks = record { counter = 0; max_contiguous = index; next_unset = w.next_unset } in
    let (es, m, ended) =
      mark_discarded (add64 index count) w.next_unreserved index start (drop index w.elements) in
    let marked : Window = record w {
      elements = take index w.elements ++ es;
      next_unset = m.next_unset;
    } in
    if count == 0
    then (ok 0, w)
    else if out_of_window w offset
    then (err err_offset_out_of_window, w)
    else if ended
    then settle index m marked
    else (panic, marked)
