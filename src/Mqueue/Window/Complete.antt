-- ===== src/Mqueue/Window/Complete.antt =====
-- `Set` and `Get` of the window against `insert` and `retrieve` of the queue.
use developer_gateway.Prelude.{
  ◌⊎◌, ℕ, zero, suc, ◌+◌, ◌-◌, ◌^◌, ◌≤◌, ◌<◌, ◌≡◌, ◌≢◌, refl, sym, ◌∙◌, true, false, none, some,
  List, [], ◌∷◌, length, get_elem?, set, take, drop, ltb, ◌==◌, arith, String, inl, inr, Bool-cases,
  Option-cases, length-set, length-drop, get_elem?_past,
}
use developer_gateway.Prelude.Words.{add64, sub64}
use developer_gateway.Errors.{ok, err, panic}
use developer_gateway.Mqueue.Window.{
  Slot, Window, collect, set_value, get, update_unset_index, err_offset_out_of_window,
  err_offset_not_reserved, err_offset_already_set,
}
use developer_gateway.Mqueue.Window.Queue
use developer_gateway.Mqueue.Window.Queue.{Queue, Entry, completed, listing}
use developer_gateway.Mqueue.Window.Slots.{
  Shows, Holds, get_elem?-Shows, get_elem?-IsBlank, Holds-set, Holds-drop,
}
use developer_gateway.Mqueue.Window.Scans.{
  collect-listing, find_unset-completed, completed-le, completed-drop, completed-set_ne,
  completed-le-set,
}
use developer_gateway.Mqueue.Window.Refine.{Represents, IsSmall}

get_elem?-lt {ℓ} :
    {A : Type ℓ} (xs : List A) (i : ℕ) (a : A) → get_elem? xs i ≡ some a → i < length xs
get_elem?-lt [] i a h = cc
get_elem?-lt (x ∷ xs) zero a h = omega arith
get_elem?-lt (x ∷ xs) (suc i) a h = omega (arith, get_elem?-lt xs i a h)

length-le_of_none {ℓ} : {A : Type ℓ} (xs : List A) (i : ℕ) → get_elem? xs i ≡ none → length xs ≤ i
length-le_of_none [] i h = omega arith
length-le_of_none (x ∷ xs) zero h = cc
length-le_of_none (x ∷ xs) (suc i) h = omega (arith, length-le_of_none xs i h)

-- After a slot has been set, the scan finds the first pending entry.
update_unset_index-completed :
    (index base : ℕ) (ss : List Entry) (w : Window)
    → Holds base ss w.elements
    → length ss < length w.elements
    → w.next_unset ≤ completed ss
    → (w.next_unset ≢ index → w.next_unset ≡ completed ss)
    → update_unset_index index w ≡ record w { next_unset = completed ss }
unfolding update_unset_index
update_unset_index-completed index base ss w h p k other =
    let nu = w.next_unset in
    let found =
      find_unset-completed (base + nu) nu (drop nu ss) (drop nu w.elements)
        (Holds-drop base nu ss w.elements h)
        (omega (arith, length-drop nu ss, length-drop nu w.elements, completed-le ss)) in
    let same : nu + completed (drop nu ss) ≡ completed ss = completed-drop nu ss k in
    ground (arith, found, same, other)

abbrev filled : Window → ℕ → Slot → (type value : String) → Window
filled w i e t v = record w {
  elements = set w.elements i (record e { is_set = true; type = t; value = v });
}

module _ (w : Window) (offset : ℕ) (t v : String) (word : offset < 2 ^ 64)
    (small : w.offset + length w.elements < 2 ^ 64) where
  set_value_outside :
      (offset < w.offset) ⊎ (w.offset + length w.elements < offset)
      → set_value w offset t v ≡ (err err_offset_out_of_window, w)
  unfolding set_value
  set_value_outside h = ground arith

  module _ (i : ℕ) (at_index : w.offset + i ≡ offset) (inside : i ≤ length w.elements) where
    set_value_past : get_elem? w.elements i ≡ none → set_value w offset t v ≡ (panic, w)
    unfolding set_value
    set_value_past h = ground arith

    module _ (e : Slot) (found : get_elem? w.elements i ≡ some e) where
      set_value_free :
          e.reserved ≡ false → set_value w offset t v ≡ (err err_offset_not_reserved, w)
      unfolding set_value
      set_value_free h = ground arith

      set_value_again :
          e.reserved ≡ true
          → e.is_set ≡ true
          → set_value w offset t v ≡ (err err_offset_already_set, w)
      unfolding set_value
      set_value_again h k = ground arith

      set_value_pending :
          e.reserved ≡ true
          → e.is_set ≡ false
          → e.discarded ≡ false
          → set_value w offset t v ≡ (ok tt, update_unset_index i (filled w i e t v))
      unfolding set_value
      set_value_pending h k l = ground arith

-- A pending entry is completed in its slot.
filled-Represents :
    (w : Window) (q : Queue) (i : ℕ) (t v : String) (e : Slot)
    → Represents w q
    → get_elem? q.entries i ≡ some none
    → get_elem? w.elements i ≡ some e
    → Shows (q.base + i) none e
    → Represents
        (update_unset_index i (filled w i e t v))
        (record q { entries = set q.entries i (some (t, v)) })
filled-Represents w q i t v e r pending found shown =
    let ss = set q.entries i (some (t, v)) in
    let held =
      Holds-set q.base i q.entries w.elements (some (t, v))
        (record e { is_set = true; type = t; value = v }) r.held
        (get_elem?-lt q.entries i none pending) (shown.0, refl, shown.2, shown.3, refl, refl) in
    let longer = length-set q.entries i (some (t, v)) in
    let slots = length-set w.elements i (record e { is_set = true; type = t; value = v }) in
    rw
      (update_unset_index-completed i q.base ss (filled w i e t v) held
        (omega (arith, longer, slots, r.size, r.room))
        (omega (arith, r.unset, completed-le-set i q.entries (t, v)))
        (λ ne.
          r.unset ∙ sym (completed-set_ne i q.entries (t, v) pending (λ h. ne (r.unset ∙ sym h)))))
      (record {
        most = r.most;
        base = r.base;
        size = slots ∙ r.size;
        unreserved = r.unreserved ∙ sym longer;
        unset = refl;
        room = omega (arith, longer, r.room);
        fits = r.fits;
        held = held;
      })

-- `Set` completes a pending offset, and refuses any other as the queue does; just past the storage
-- it panics.
pub insert_refines :
    (w : Window) (q : Queue) (offset : ℕ) (t v : String)
    → Represents w q
    → IsSmall q
    → offset < 2 ^ 64
    → ((set_value w offset t v).0 ≡ (Queue.insert q offset t v).0)
      × Represents (set_value w offset t v).1 (Queue.insert q offset t v).1
unfolding Queue.insert
insert_refines w q offset t v r s word =
    let i = offset - q.base in
    let small : w.offset + length w.elements < 2 ^ 64 = omega arith in
    elim (Bool-cases (ltb offset q.base)) [
      | inl below ↦
          rw (below, set_value_outside w offset t v word small (inl (ground arith))) (refl, r)
      | inr above ↦ elim (Bool-cases (ltb (q.base + q.size) offset)) [
        | inl beyond ↦
            rw (above, beyond, set_value_outside w offset t v word small (inr (ground arith)))
              (refl, r)
        | inr within ↦
            let at_index : w.offset + i ≡ offset = ground arith in
            let inside : i ≤ length w.elements = ground arith in
            elim (Bool-cases (offset == q.base + q.size)) [
              | inl past ↦
                  rw
                    (
                      above,
                      within,
                      past,
                      set_value_past w offset t v word small i at_index inside
                          (get_elem?_past w.elements i (ground arith)),
                    )
                    (refl, r)
              | inr before ↦ elim (Option-cases (get_elem? q.entries i)) [
                | inl free ↦
                    let (e, found, blank) =
                      get_elem?-IsBlank q.base i q.entries w.elements r.held
                        (length-le_of_none q.entries i free) (ground arith) in
                    rw
                      (
                        above,
                        within,
                        before,
                        free,
                        set_value_free w offset t v word small i at_index inside e found blank.0,
                      )
                      (refl, r)
                | inr (none, pending) ↦
                    let (e, found, shown) =
                      get_elem?-Shows q.base i q.entries w.elements none r.held pending in
                    rw
                      (
                        above,
                        within,
                        before,
                        pending,
                        set_value_pending w offset t v word small i at_index inside e found shown.0
                            shown.1 shown.2,
                      )
                      (refl, filled-Represents w q i t v e r pending found shown)
                | inr (some y, done) ↦
                    let (e, found, shown) =
                      get_elem?-Shows q.base i q.entries w.elements (some y) r.held done in
                    rw
                      (
                        above,
                        within,
                        before,
                        done,
                        set_value_again w offset t v word small i at_index inside e found shown.0
                            shown.1,
                      )
                      (refl, r)
              ]
            ]
      ]
    ]

retrieve_from :
    (w : Window) (q : Queue) (from count : ℕ)
    → Represents w q
    → q.base ≤ from
    → from < 2 ^ 64
    → count + (from - q.base) < 2 ^ 64
    → collect
        (add64 count (sub64 from w.offset))
        (sub64 from w.offset)
        (drop (sub64 from w.offset) w.elements)
      ≡ listing from (take count (drop (from - q.base) q.entries))
retrieve_from w q from count r low word small =
    let i = from - q.base in
    let index : sub64 from w.offset ≡ i = omega arith in
    let end : add64 count i ≡ count + i = omega arith in
    let at_from : q.base + i ≡ from = omega arith in
    let held = Holds-drop q.base i q.entries w.elements r.held in
    let listed =
      collect-listing (count + i) (q.base + i) i count (drop i q.entries) (drop i w.elements) held
        refl in
    ground (arith, index, end, at_from, listed)

-- `Get` lists the completed offsets of its range in order, each with its type and value.
pub retrieve_refines :
    (w : Window) (q : Queue) (offset count : ℕ)
    → Represents w q
    → IsSmall q
    → offset < 2 ^ 64
    → count + (offset - q.base) < 2 ^ 64
    → get w offset count ≡ Queue.retrieve q offset count
unfolding get Queue.retrieve
retrieve_refines w q offset count r s word small = elim (Bool-cases (ltb offset q.base)) [
  | inl below ↦
      let base = retrieve_from w q q.base count r (omega arith) (omega arith) (omega arith) in
      ground (arith, r.base, base)
  | inr above ↦
      let from = retrieve_from w q offset count r (ground arith) word small in
      ground (arith, r.base, from)
]
