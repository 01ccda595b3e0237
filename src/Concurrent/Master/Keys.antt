-- ===== src/Concurrent/Master/Keys.antt =====
-- Lists of keys, from which one occurrence is taken out, and how often a key occurs in them.
use developer_gateway.Prelude.{
  ℕ, suc, ◌+◌, ◌≤◌, ◌≡◌, refl, true, false, List, [], ◌∷◌, ◌++◌, String, length, if◌then◌else◌, has,
  same, same→≡, same_refl, arith,
}
use developer_gateway.Concurrent.Master.{take_out}

abbrev pub occurrences : String → List String → ℕ
occurrences k [] = 0
occurrences k (x ∷ xs) = (if same k x then 1 else 0) + occurrences k xs

pub length-take_out :
    (k : String) (xs : List String) → has k xs ≡ true → suc (length (take_out k xs)) ≡ length xs
length-take_out k [] h = absurd (ground arith)
length-take_out k (x ∷ xs) h = ground (arith, length-take_out k xs)

pub take_out_absent : (k : String) (xs : List String) → has k xs ≡ false → take_out k xs ≡ xs
take_out_absent k [] h = refl
take_out_absent k (x ∷ xs) h = ground (arith, take_out_absent k xs)

pub has-occurrences : (k : String) (xs : List String) → has k xs ≡ true → 1 ≤ occurrences k xs
has-occurrences k [] h = absurd (ground arith)
has-occurrences k (x ∷ xs) h = ground (arith, has-occurrences k xs)

pub occurrences-has : (k : String) (xs : List String) → has k xs ≡ false → occurrences k xs ≡ 0
occurrences-has k [] h = refl
occurrences-has k (x ∷ xs) h = ground (arith, occurrences-has k xs)

pub occurrences-take_out :
    (j k : String) (xs : List String)
    → has k xs ≡ true
    → (if same j k then 1 else 0) + occurrences j (take_out k xs) ≡ occurrences j xs
occurrences-take_out j k [] h = absurd (ground arith)
occurrences-take_out j k (x ∷ xs) h = ground (arith, occurrences-take_out j k xs, same→≡ k x)

pub occurrences-append :
    (k : String) (xs ys : List String)
    → occurrences k (xs ++ ys) ≡ occurrences k xs + occurrences k ys
occurrences-append k [] ys = omega arith
occurrences-append k (x ∷ xs) ys = ground (arith, occurrences-append k xs ys)

pub occurs_never : (xs : List String) → ((k : String) → occurrences k xs ≡ 0) → xs ≡ []
occurs_never [] h = refl
occurs_never (x ∷ xs) h = absurd (ground (arith, h x, same_refl x))
