-- ===== src/Rw/Writer.antt =====
-- `Writer` of rw/writer.go: a buffer as a writer.
use developer_gateway.Prelude.{
  ℕ, ◌+◌, ◌≡◌, refl, List, [], ◌∷◌, arith, ◌++◌, length, take, drop, min,
}

pub record Writer : Type 0 where
  pub buf : List ℕ
  pub offset : ℕ

-- `NewWriter`
abbrev new_writer : List ℕ → Writer
new_writer p = record { buf = p; offset = 0 }

-- `Write`, which copies into `w.buf[:w.offset]`: how many bytes are copied. The offset stays in the buffer.
unfoldable pub write : Writer → List ℕ → ℕ × Writer
write w p =
    let n = min (length (take w.offset w.buf)) (length p) in
    (n, record w { buf = take n p ++ drop n w.buf; offset = w.offset + n })

-- How many bytes a list of writes copies, and the writer after them.
unfoldable write_all : Writer → List (List ℕ) → ℕ × Writer
write_all w [] = (0, w)
write_all w (p ∷ ps) = let (n, w') = write w p in let (m, w'') = write_all w' ps in (n + m, w'')

first_write : (buf p : List ℕ) → write (new_writer buf) p ≡ (0, new_writer buf)
unfolding write
first_write buf p = let nothing : min 0 (length p) ≡ 0 = omega arith in rw nothing refl

-- A new writer copies nothing, however it is written to, and leaves its buffer as it is.
writer_copies_nothing :
    (buf : List ℕ) (ps : List (List ℕ)) → write_all (new_writer buf) ps ≡ (0, new_writer buf)
unfolding write_all
writer_copies_nothing buf [] = refl
writer_copies_nothing buf (p ∷ ps) =
    let step = first_write buf p in simp (write_all, step, writer_copies_nothing buf ps) refl
