-- ===== src/Rw/Bounds.antt =====
-- How much the readers of rw/reader.go give.
use mathlib.Core.Path.{subst}
use developer_gateway.Prelude.{
  ℕ, zero, suc, ◌+◌, ◌≤◌, ◌≡◌, ◌≢◌, refl, ap, ◌∙◌, sym, true, false, none, some, List, [], ◌∷◌,
  ◌++◌, length, take, drop, min, ltb, ◌&&◌, ◌⊎◌, if◌then◌else◌, arith, Bool-cases, inl, inr, All,
  take_of_length-le, length-take,
}
use developer_gateway.Rw.{
  eof, limit_exceeded, ReadLimitProps, LimitReader, reader_limit, new_limit_reader, read, read_all,
  copy_with_limit,
}

List-cases : (bs : List ℕ) → (bs ≡ []) ⊎ ((b : ℕ) × (rest : List ℕ) × (bs ≡ b ∷ rest))
List-cases [] = inl refl
List-cases (b ∷ bs) = inr (b, bs, refl)

-- Copying with a limit writes the source up to the limit and succeeds, unless it is asked to fail on a
-- longer source and there is one: then it fails after one byte more than the limit is written.
pub copy_with_limit_decides :
    (source : List ℕ) (props : ReadLimitProps)
    → copy_with_limit source props ≡ (
        if props.fail_on_exceed && ltb props.limit (length source)
        then (0, some limit_exceeded, take (props.limit + 1) source)
        else (
          min props.limit (length source),
          if props.err_on_eof then some eof else none,
          take props.limit source,
        ))
unfolding copy_with_limit
copy_with_limit_decides source props = elim (Bool-cases props.fail_on_exceed) [
  | inr e ↦
      let few : ltb props.limit (min props.limit (length source)) ≡ false = ground arith in
      simp (copy_with_limit, e, length-take props.limit source, few) refl
  | inl e ↦ elim (Bool-cases (ltb props.limit (length source))) [
    | inl f ↦
        let many : ltb props.limit (length (take (props.limit + 1) source)) ≡ true =
          ground (arith, f, length-take (props.limit + 1) source) in
        simp (copy_with_limit, e, f, many) refl
    | inr f ↦
        let short : length source ≤ props.limit = ground (arith, f) in
        let whole : take (props.limit + 1) source ≡ source =
          take_of_length-le (props.limit + 1) source (omega (arith, short)) in
        let whole' : take props.limit source ≡ source =
          take_of_length-le props.limit source short in
        let size : min props.limit (length source) ≡ length source = omega (arith, short) in
        simp (copy_with_limit, e, whole, whole', f, size) refl
  ]
]

-- The sizes of the reads together.
abbrev pub total : List ℕ → ℕ
total [] = 0
total (size ∷ sizes) = size + total sizes

take_nil : (n : ℕ) → take {A = ℕ} n [] ≡ []
take_nil zero = refl
take_nil (suc n) = refl

take_add : (m n : ℕ) (bs : List ℕ) → take m bs ++ take n (drop m bs) ≡ take (m + n) bs
take_add zero n bs = let sum : 0 + n ≡ n = omega arith in rw sum refl
take_add (suc m) n [] = take_nil n ∙ sym (take_nil (suc m + n))
take_add (suc m) n (b ∷ bs) =
    let sum : suc m + n ≡ suc (m + n) = omega arith in rw sum (ap (λ l. b ∷ l) (take_add m n bs))

-- What reads of at most the limit give, as long as none fails for the limit.
abbrev Passes : List ℕ → LimitReader → Type 0
Passes sizes r =
    ((read_all sizes r).0 ≡ take (total sizes) r.reader)
    × ((read_all sizes r).1 ≢ some limit_exceeded)

read_within :
    (size : ℕ) (r : LimitReader) (b : ℕ) (bs : List ℕ)
    → r.reader ≡ b ∷ bs
    → ltb r.limit (r.count + length (take size r.reader)) ≡ false
    → read size r ≡ (take size r.reader, none, record r { reader = drop size r.reader })
unfolding read
read_within size r b bs e within = ground (arith, e, within)

reader_limit_fails :
    (props : ReadLimitProps) → props.fail_on_exceed ≡ true → reader_limit props ≡ props.limit + 1
reader_limit_fails props fails = rw fails refl

short_reads :
    (sizes : List ℕ) (r : LimitReader)
    → r.count ≡ 0
    → All (λ size. size ≤ r.limit) sizes
    → Passes sizes r
unfolding read_all read
short_reads [] r fresh small = (refl, λ e. ground (arith, e))
short_reads (size ∷ sizes) r fresh (s, small) = elim (List-cases r.reader) [
  | inl e ↦
      let none_left : take (size + total sizes) r.reader ≡ [] =
        ap (take (size + total sizes)) e ∙ take_nil (size + total sizes) in
      elim (Bool-cases r.err_on_eof) [
        | inl ends ↦
            let runs : read_all (size ∷ sizes) r ≡ ([], some eof) =
              simp (read_all, read, e, ends) refl in
            subst (λ p. (p.0 ≡ take (size + total sizes) r.reader) × (p.1 ≢ some limit_exceeded))
              (sym runs) (sym none_left, λ h. ground (arith, h))
        | inr goes_on ↦
            let (given, passed) = short_reads sizes r fresh small in
            let reads : read size r ≡ ([], none, r) = simp (read, e, goes_on) refl in
            let runs : read_all (size ∷ sizes) r ≡ read_all sizes r = simp (read_all, reads) refl in
            let still : take (total sizes) r.reader ≡ [] =
              ap (take (total sizes)) e ∙ take_nil (total sizes) in
            subst (λ p. (p.0 ≡ take (size + total sizes) r.reader) × (p.1 ≢ some limit_exceeded))
              (sym runs) (given ∙ still ∙ sym none_left, passed)
      ]
  | inr (b, bs, e) ↦
      let next : LimitReader = record r { reader = drop size r.reader } in
      let (given, passed) = short_reads sizes next fresh small in
      let within : ltb r.limit (r.count + length (take size r.reader)) ≡ false =
        ground (arith, fresh, s, length-take size r.reader) in
      let reads : read size r ≡ (take size r.reader, none, next) =
        read_within size r b bs e within in
      let runs : read_all (size ∷ sizes) r
          ≡ (take size r.reader ++ (read_all sizes next).0, (read_all sizes next).1) =
        simp (read_all, reads) refl in
      subst (λ p. (p.0 ≡ take (size + total sizes) r.reader) × (p.1 ≢ some limit_exceeded))
        (sym runs)
        (ap (λ l. take size r.reader ++ l) given ∙ take_add size (total sizes) r.reader, passed)
]

-- If a reader that is to fail on a source longer than its limit is read by calls that give at most the
-- limit each, then they give the source up to one byte more than the limit, as far as they go, and
-- none of them fails for the limit.
pub limit_reader_passes :
    (source sizes : List ℕ) (props : ReadLimitProps)
    → props.fail_on_exceed ≡ true
    → All (λ size. size ≤ props.limit) sizes
    → ((read_all sizes (new_limit_reader source props)).0
        ≡ take (total sizes) (take (props.limit + 1) source))
      × ((read_all sizes (new_limit_reader source props)).1 ≢ some limit_exceeded)
unfolding new_limit_reader
limit_reader_passes source sizes props fails small =
    let (given, passed) = short_reads sizes (new_limit_reader source props) refl small in
    (given ∙ ap (λ n. take (total sizes) (take n source)) (reader_limit_fails props fails), passed)
