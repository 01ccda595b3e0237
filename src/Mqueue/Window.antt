-- ===== src/Mqueue/Window.antt =====
-- `SlidingWindow` of mqueue/mem/window.go. A method returns its outcome and the new window; after a
-- panic the window is of no interest. `uint` and `uint64` are 64-bit words.
pub mod Slide
pub mod Queue
pub mod Slots
pub mod Scans
pub mod Refine
pub mod Complete
pub mod Release
pub mod Marks
use developer_gateway.Prelude.{
  ℕ, zero, suc, ◌+◌, ◌-◌, ◌*◌, ◌%◌, ◌^◌, Bool, true, false, not, ◌&&◌, ◌||◌, String, Option, none,
  some, List, [], ◌∷◌, ◌++◌, map, length, get_elem?, set, take, drop, replicate, min, ltb, leb,
  ◌==◌, if◌then◌else◌,
}
use developer_gateway.Prelude.Words.{add64, sub64}
use developer_gateway.Errors.{Error, Outcome, ok, err, panic, new}
use developer_gateway.Errors.Internal.{err_invalid_state_change_error}
use developer_gateway.Errors.Request.{err_out_of_range, err_queue_limit_reached}
use developer_gateway.Mqueue.{Element, Elements}

-- `element`; the field `Set` is `is_set`.
pub record Slot : Type 0 where
  pub discarded : Bool
  pub reserved : Bool
  pub is_set : Bool
  pub offset : ℕ
  pub value : String
  pub type : String

pub record Window : Type 0 where
  pub max_size : ℕ
  pub next_unreserved : ℕ
  pub next_unset : ℕ
  pub offset : ℕ
  pub elements : List Slot

-- The zero value of `element`.
abbrev pub empty_slot : Slot
empty_slot = record {
  discarded = false;
  reserved = false;
  is_set = false;
  offset = 0;
  value = "";
  type = "";
}

-- `NewSlidingWindow`: 16 and 1024 stand for sizes that are not given.
unfoldable pub new_window : (initial_size max_size : ℕ) → Window
new_window initial_size max_size =
    let initial : ℕ = if initial_size == 0 then 16 else initial_size in
    let most : ℕ = if max_size == 0 then 1024 else max_size in
    record {
      max_size = if ltb most initial then initial else most;
      next_unreserved = 0;
      next_unset = 0;
      offset = 0;
      elements = replicate initial empty_slot;
    }

-- The loop of `Get`: the list is `w.elements[i:]`, and `end` is `count+index`.
unfoldable pub collect : (end i : ℕ) → List Slot → List Element
collect end i [] = []
collect end i (e ∷ es) =
    let rest = collect end (i + 1) es in
    if ltb i end
    then if e.reserved && e.is_set && not e.discarded
      then (record { offset = e.offset; value = e.value; type = e.type }) ∷ rest
      else rest
    else []

unfoldable pub get : Window → (offset count : ℕ) → Elements
unfolding collect
get w offset count =
    let from : ℕ = if ltb offset w.offset then w.offset else offset in
    let index = sub64 from w.offset in
    record {
      offset = w.offset;
      elements = collect (add64 count index) index (drop index w.elements);
    }

abbrev pub err_full : Error
err_full = new err_queue_limit_reached (some "window is full and cannot increase its size")

-- `makeRoom`: the number of elements made available, and the window. `currSize << 1` wraps.
unfoldable pub make_room : Window → ℕ × Window
make_room w =
    let curr_size = length w.elements in
    let doubled = (curr_size * 2) % 2 ^ 64 in
    let next_size : ℕ = if ltb w.max_size doubled then w.max_size else doubled in
    if ltb curr_size w.max_size
    then (
      sub64 next_size curr_size,
      record w {
        elements = take next_size w.elements ++ replicate (next_size - curr_size) empty_slot;
      },
    )
    else (0, w)

-- The second half of `ReserveNext`, once there is room.
unfoldable pub reserve_at : Window → Outcome ℕ × Window
reserve_at w =
    let offset = add64 w.next_unreserved w.offset in
    let index = sub64 offset w.offset in
    elim (get_elem? w.elements index) [
      | none ↦ (panic, w)
      | some e ↦ if e.reserved || e.is_set then (panic, w) else (
        ok offset,
        record w {
          elements = set w.elements index (record e { reserved = true; offset = offset });
          next_unreserved = add64 index 1;
        },
      )
    ]

unfoldable pub reserve_next : Window → Outcome ℕ × Window
reserve_next w =
    if leb (sub64 (length w.elements) 1) w.next_unreserved
    then (let (n, roomy) = make_room w in if n == 0 then (err err_full, w) else reserve_at roomy)
    else reserve_at w

-- The loop of `updateUnsetIndex` over `w.elements[i:]`; `none` if it never breaks.
unfoldable pub find_unset : ℕ → List Slot → Option ℕ
find_unset i [] = none
find_unset i (e ∷ es) = if not e.is_set && not e.discarded then some i else find_unset (i + 1) es

unfoldable pub update_unset_index : ℕ → Window → Window
unfolding find_unset
update_unset_index index w =
    if w.next_unset == index
    then elim (find_unset w.next_unset (drop w.next_unset w.elements)) [
      | none ↦ w
      | some i ↦ record w { next_unset = i }
    ]
    else w

-- The range check of `Set` and `Discard`.
abbrev pub out_of_window : Window → ℕ → Bool
out_of_window w offset = ltb offset w.offset || ltb (add64 w.offset (length w.elements)) offset

abbrev pub err_offset_out_of_window : Error
err_offset_out_of_window = new err_out_of_range (some "offset is out of the window's range")

abbrev pub err_offset_not_reserved : Error
err_offset_not_reserved = new err_invalid_state_change_error (some "offset is not reserved")

abbrev pub err_offset_already_set : Error
err_offset_already_set = new err_invalid_state_change_error (some "offset is already set")

-- `Set`. A read past the end of the elements panics.
unfoldable pub set_value :
    Window → (offset : ℕ) (value_type value : String) → Outcome (Unit {0}) × Window
unfolding update_unset_index
set_value w offset value_type value =
    let index = sub64 offset w.offset in
    if out_of_window w offset
    then (err err_offset_out_of_window, w)
    else elim (get_elem? w.elements index) [
      | none ↦ (panic, w)
      | some e ↦
          if not e.reserved
          then (err err_offset_not_reserved, w)
          else if e.is_set || e.discarded
          then (err err_offset_already_set, w)
          else (
            ok tt,
            update_unset_index index (record w {
              elements =
                  set w.elements index
                    (record e { is_set = true; type = value_type; value = value });
            }),
          )
    ]
