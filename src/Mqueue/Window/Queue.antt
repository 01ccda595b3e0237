-- ===== src/Mqueue/Window/Queue.antt =====
-- What the sliding window promises while nothing is discarded in its middle: a queue of pending and
-- completed offsets, with no array, no flags and no indices.
use developer_gateway.Prelude.{
  ℕ, suc, ◌+◌, ◌-◌, ◌*◌, Option, none, some, String, List, [], ◌∷◌, ◌++◌, length, get_elem?, set,
  take, drop, min, ltb, ◌==◌, if◌then◌else◌,
}
use developer_gateway.Errors.{Outcome, ok, err, panic}
use developer_gateway.Mqueue.{Element, Elements}
use developer_gateway.Mqueue.Window.{
  err_full, err_offset_out_of_window, err_offset_not_reserved, err_offset_already_set,
}

-- An offset that is handed out: pending, or completed with a type and a value.
abbrev pub Entry : Type 0
Entry = Option (String × String)

-- `entries` are those of the offsets from `base` on. `size` offsets have storage, `most` can have.
pub record Queue : Type 0 where
  pub base : ℕ
  pub size : ℕ
  pub most : ℕ
  pub entries : List Entry

-- How many offsets are completed before the first pending one.
abbrev pub completed : List Entry → ℕ
completed [] = 0
completed (none ∷ es) = 0
completed (some _ ∷ es) = suc (completed es)

abbrev pub listing : ℕ → List Entry → List Element
listing offset [] = []
listing offset (none ∷ es) = listing (offset + 1) es
listing offset (some (t, v) ∷ es) =
    (record { offset = offset; value = v; type = t }) ∷ listing (offset + 1) es

-- One offset of the storage is never handed out.
unfoldable pub next : Queue → Outcome ℕ × Queue
next q =
    let handed = length q.entries in
    let longer = q.entries ++ (none ∷ []) in
    if ltb (handed + 1) q.size
    then (ok (q.base + handed), record q { entries = longer })
    else if ltb q.size q.most
    then (ok (q.base + handed), record q { entries = longer; size = min (q.size * 2) q.most })
    else (err err_full, q)

unfoldable pub insert : Queue → (offset : ℕ) (type value : String) → Outcome (Unit {0}) × Queue
insert q offset type value =
    if ltb offset q.base
    then (err err_offset_out_of_window, q)
    else if ltb (q.base + q.size) offset
    then (err err_offset_out_of_window, q)
    else if offset == q.base + q.size
    then (panic, q)
    else elim (get_elem? q.entries (offset - q.base)) [
      | none ↦ (err err_offset_not_reserved, q)
      | some entry ↦ elim entry [
        | none ↦
            (ok tt, record q { entries = set q.entries (offset - q.base) (some (type, value)) })
        | some _ ↦ (err err_offset_already_set, q)
      ]
    ]

unfoldable pub retrieve : Queue → (offset count : ℕ) → Elements
retrieve q offset count =
    let from : ℕ = if ltb offset q.base then q.base else offset in
    record {
      offset = q.base;
      elements = listing from (take count (drop (from - q.base) q.entries));
    }

-- Only completed offsets are given up.
unfoldable pub slide : Queue → ℕ → Outcome ℕ × Queue
slide q offset =
    let n = min (offset - q.base) (completed q.entries) in
    if ltb offset q.base
    then (ok 0, q)
    else if ltb (q.base + q.size) offset
    then (err err_offset_out_of_window, q)
    else (ok n, record q { base = q.base + n; entries = drop n q.entries })
