-- ===== src/Eth/Client/Status.antt =====
-- The status of a transaction: `strconv.ParseUint` of a text that a node makes of a number.
use developer_gateway.Prelude.{
  ℕ, zero, suc, ◌+◌, ◌*◌, ◌^◌, ◌≡◌, refl, sym, ap, ◌∙◌, ◌<◌, true, false, some, inl, inr, ◌==◌,
  String, leb, ltb, ◌%◌, ◌/◌, if◌then◌else◌, arith, Bool-cases,
}
use Prim.Native.Char.{Char}
use Prim.Native.String.{char_at}
use developer_gateway.Eth.Client.{hex_digit, parse_digits, parse_uint, trim_prefix}

-- What hexutil writes: the digits of a number from the last one on, in front of a text.
abbrev digit_char : ℕ → Char
digit_char d = char_at "0123456789abcdef" d

unfoldable pub print_digits : (fuel n : ℕ) → String → String
print_digits zero n acc = acc
print_digits (suc fuel) n acc =
    let acc' = String.◌∷◌ (digit_char (n % 16)) acc in
    let rest = print_digits fuel (n / 16) acc' in if ltb n 16 then acc' else rest

-- Sixteen digits are enough for 64 bits.
abbrev pub print_status : ℕ → String
print_status n =
    String.◌∷◌ (char_at "0" 0) (String.◌∷◌ (char_at "x" 0) (print_digits 16 n String.[]))

-- The digits below a bound are read as they are written.
abbrev AreRead : ℕ → Type 0
AreRead zero = Unit
AreRead (suc n) = (hex_digit (digit_char n) ≡ some n) × AreRead n

read_below : (bound d : ℕ) → AreRead bound → d < bound → hex_digit (digit_char d) ≡ some d
read_below zero d reads h = absurd (omega (arith, h))
read_below (suc bound) d (read, reads) h = elim (Bool-cases (d == bound)) [
  | inl e ↦ grind (arith, e, read)
  | inr e ↦ read_below bound d reads (ground (arith, e, h))
]

all_digits : AreRead 16
all_digits = (
  refl,
  (
    refl,
    (
      refl,
      (
        refl,
        (
          refl,
          (
            refl,
            (refl, (refl, (refl, (refl, (refl, (refl, (refl, (refl, (refl, (refl, tt)))))))))),
          ),
        ),
      ),
    ),
  ),
)

parse_one :
    (m d : ℕ) (ch : Char) (rest : String)
    → hex_digit ch ≡ some d
    → leb (2 ^ 60) m ≡ false
    → parse_digits m (String.◌∷◌ ch rest) ≡ parse_digits (m * 16 + d) rest
unfolding parse_digits
parse_one m d ch rest e small = simp (parse_digits, e, small) refl

parse_more :
    (fuel n : ℕ) (ch : Char) (acc : String)
    → parse_uint (print_digits fuel n (String.◌∷◌ ch acc))
      ≡ parse_digits 0 (print_digits fuel n (String.◌∷◌ ch acc))
unfolding parse_uint print_digits
parse_more zero n ch acc = refl
parse_more (suc fuel) n ch acc =
    let rest = parse_more fuel (n / 16) (digit_char (n % 16)) (String.◌∷◌ ch acc) in
    elim (Bool-cases (ltb n 16)) [
      | inl e ↦ simp (print_digits, e, parse_uint) refl
      | inr e ↦ simp (print_digits, e, rest) refl
    ]

print_last :
    (fuel n : ℕ) (acc : String)
    → ltb n 16 ≡ true
    → print_digits (suc fuel) n acc ≡ String.◌∷◌ (digit_char (n % 16)) acc
unfolding print_digits
print_last fuel n acc e = simp (print_digits, e) refl

print_more :
    (fuel n : ℕ) (acc : String)
    → ltb n 16 ≡ false
    → print_digits (suc fuel) n acc
      ≡ print_digits fuel (n / 16) (String.◌∷◌ (digit_char (n % 16)) acc)
unfolding print_digits
print_more fuel n acc e = simp (print_digits, e) refl

-- One digit more, read after the others.
parse_last :
    (m n : ℕ) (acc : String)
    → m < 2 ^ 60
    → m * 16 + n % 16 ≡ n
    → parse_digits m (String.◌∷◌ (digit_char (n % 16)) acc) ≡ parse_digits n acc
parse_last m n acc small e =
    parse_one m (n % 16) (digit_char (n % 16)) acc (read_below 16 (n % 16) all_digits (omega arith))
      (ground (arith, small))
    ∙ ap (λ x. parse_digits x acc) e

parse_digits-print_digits :
    (fuel n : ℕ) (acc : String)
    → n < 16 ^ fuel
    → n < 2 ^ 64
    → parse_digits 0 (print_digits fuel n acc) ≡ parse_digits n acc
unfolding print_digits
parse_digits-print_digits zero n acc enough bound =
    ap (λ x. parse_digits x acc) (omega (arith, enough))
parse_digits-print_digits (suc fuel) n acc enough bound =
    let rest =
      parse_digits-print_digits fuel (n / 16) (String.◌∷◌ (digit_char (n % 16)) acc)
        (omega (arith, enough)) (omega (arith, bound)) in
    elim (Bool-cases (ltb n 16)) [
      | inl e ↦
          ap (parse_digits 0) (print_last fuel n acc e)
          ∙ parse_last 0 n acc (omega arith) (ground (arith, e))
      | inr e ↦
          ap (parse_digits 0) (print_more fuel n acc e)
          ∙ rest
          ∙ parse_last (n / 16) n acc (omega (arith, bound)) (omega arith)
    ]

written_parses :
    (fuel n : ℕ)
    → parse_uint (print_digits (suc fuel) n String.[])
      ≡ parse_digits 0 (print_digits (suc fuel) n String.[])
unfolding parse_uint
written_parses fuel n = elim (Bool-cases (ltb n 16)) [
  | inl e ↦ simp (print_last fuel n String.[] e, parse_uint) refl
  | inr e ↦
      ap parse_uint (print_more fuel n String.[] e)
      ∙ parse_more fuel (n / 16) (digit_char (n % 16)) String.[]
      ∙ sym (ap (parse_digits 0) (print_more fuel n String.[] e))
]

-- Every status of 64 bits is read as the number that it was written from.
pub parse_uint-print_status :
    (n : ℕ) → n < 2 ^ 64 → parse_uint (trim_prefix (print_status n)) ≡ some n
unfolding trim_prefix parse_digits
parse_uint-print_status n bound =
    written_parses 15 n ∙ parse_digits-print_digits 16 n String.[] (omega (arith, bound)) bound
