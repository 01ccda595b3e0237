-- ===== src/Rw.antt =====
-- The package rw: readers with a limit (rw/reader.go); Rw/Writer is rw/writer.go. A source is the bytes
-- that it has. What one call of `Read` of a source gives is at most as many bytes as the caller has room
-- for; a size below stands for what one call gives while there are bytes left.
pub mod Bounds
pub mod Writer
mod Tests
use developer_gateway.Prelude.{
  ℕ, ◌+◌, Bool, true, false, Option, none, some, List, [], ◌∷◌, ◌++◌, length, take, drop, min, ltb,
  ◌&&◌, if◌then◌else◌,
}

pub data ReadError : Type 0 where
  eof limit_exceeded : ReadError

-- `ReadLimitProps`; a limit is not negative.
pub record ReadLimitProps : Type 0 where
  pub fail_on_exceed : Bool
  pub limit : ℕ
  pub err_on_eof : Bool

-- `LimitReader`; its reader is what `io.LimitReader` leaves of the source.
pub record LimitReader : Type 0 where
  pub fail_on_exceed : Bool
  pub err_on_eof : Bool
  pub count : ℕ
  pub limit : ℕ
  pub reader : List ℕ

-- How many bytes are read at most: one more than the limit, to see whether there are more.
abbrev pub reader_limit : ReadLimitProps → ℕ
reader_limit props = if props.fail_on_exceed then props.limit + 1 else props.limit

-- `NewLimitReader`
unfoldable pub new_limit_reader : (source : List ℕ) → ReadLimitProps → LimitReader
new_limit_reader source props = record {
  fail_on_exceed = props.fail_on_exceed;
  err_on_eof = props.err_on_eof;
  count = 0;
  limit = props.limit;
  reader = take (reader_limit props) source;
}

abbrev is_empty : List ℕ → Bool
is_empty [] = true
is_empty (b ∷ bs) = false

-- `Read`, which has a copy of the reader: the count that it adds to is given up when it returns.
unfoldable pub read : (size : ℕ) → LimitReader → List ℕ × Option ReadError × LimitReader
read size r =
    let given = take size r.reader in
    let r' : LimitReader = record r { reader = drop size r.reader } in
    if is_empty r.reader
    then ([], if r.err_on_eof then some eof else none, r)
    else if r.fail_on_exceed && ltb r.limit (r.count + length given)
    then ([], some limit_exceeded, r')
    else (given, none, r')

-- Calls of `Read`, until one fails: all bytes that they give.
unfoldable pub read_all : List ℕ → LimitReader → List ℕ × Option ReadError
read_all [] r = ([], none)
read_all (size ∷ sizes) r =
    let (given, error, r') = read size r in
    let (more, last) = read_all sizes r' in
    elim error [ some e ↦ (given, some e) | none ↦ (given ++ more, last) ]

-- `CopyWithLimit` of a reader and a writer that are not nil: what is counted, the error, and what is
-- written. `io.CopyN` copies as many bytes as there are, and ends with `io.EOF` if they are too few.
unfoldable pub copy_with_limit : (source : List ℕ) → ReadLimitProps → ℕ × Option ReadError × List ℕ
copy_with_limit source props =
    let written = take (reader_limit props) source in
    let n = length written in
    if ltb props.limit n
    then (0, some limit_exceeded, written)
    else (n, if props.err_on_eof then some eof else none, written)
