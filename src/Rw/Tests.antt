-- ===== src/Rw/Tests.antt =====
-- The readers of rw/reader.go on small sources.
use developer_gateway.Prelude.{◌≡◌, ◌≢◌, refl, true, some, [], ◌∷◌, arith}
use developer_gateway.Rw.{
  ReadLimitProps, limit_exceeded, new_limit_reader, read_all, copy_with_limit, read,
}
use developer_gateway.Rw.Bounds.{limit_reader_passes}

-- As rpc/decoder.go asks for a body of two bytes.
abbrev two_bytes : ReadLimitProps
two_bytes = record { fail_on_exceed = true; limit = 2; err_on_eof = true }

copying_fails_late :
    copy_with_limit (7 ∷ 8 ∷ 9 ∷ 10 ∷ []) two_bytes ≡ (0, some limit_exceeded, 7 ∷ 8 ∷ 9 ∷ [])
unfolding copy_with_limit
copying_fails_late = refl

limit_reader_passes_example :
    ((read_all (2 ∷ 1 ∷ []) (new_limit_reader (7 ∷ 8 ∷ 9 ∷ 10 ∷ []) two_bytes)).0 ≡ 7 ∷ 8 ∷ 9 ∷ [])
    × ((read_all (2 ∷ 1 ∷ []) (new_limit_reader (7 ∷ 8 ∷ 9 ∷ 10 ∷ []) two_bytes)).1
        ≢ some limit_exceeded)
limit_reader_passes_example =
    limit_reader_passes (7 ∷ 8 ∷ 9 ∷ 10 ∷ []) (2 ∷ 1 ∷ []) two_bytes refl
      (omega arith, (omega arith, tt))

a_larger_read_fails :
    (read 4 (new_limit_reader (7 ∷ 8 ∷ 9 ∷ 10 ∷ []) two_bytes)).1 ≡ some limit_exceeded
unfolding read new_limit_reader
a_larger_read_fails = refl
