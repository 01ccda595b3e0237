-- ===== src/Prelude/Texts.antt =====
-- Texts as keys: the test of equality, and sets of keys as lists without repetitions.
use developer_gateway.Prelude.Tests.{if◌then◌else◌, Bool-cases}
use mathlib.Core.Logic.{inl, inr}
use developer_gateway.Prelude.Lists.{length}
use Prim.Native.Nat.{suc}
use Prim.Native.String.{String}
use mathlib.Core.Path.{◌≡◌, refl, sym, subst}
use mathlib.Core.Bool.{Bool, true, false}
use mathlib.Core.List.{List, [], ◌∷◌}
use native.Mathlib.Omega.{arith}
use text.Mathlib.Text
use text.Mathlib.TextEquality.{eq_iff}
use text.Mathlib.TextPositions.{eq_refl}

unfoldable pub same : String → String → Bool
same s t = Text.◌==◌ s t

pub same→≡ : (s t : String) → same s t ≡ true → s ≡ t
unfolding same
same→≡ s t h = (eq_iff s t).0 h

pub same_refl : (s : String) → same s s ≡ true
unfolding same
same_refl s = eq_refl s

abbrev pub has : String → List String → Bool
has k [] = false
has k (x ∷ xs) = if same k x then true else has k xs

abbrev pub remove : String → List String → List String
remove k [] = []
remove k (x ∷ xs) = let rest = remove k xs in if same k x then rest else x ∷ rest

abbrev pub IsDistinct : List String → Type 0
IsDistinct [] = Unit
IsDistinct (x ∷ xs) = (has x xs ≡ false) × IsDistinct xs

pub has-remove_self : (k : String) (xs : List String) → has k (remove k xs) ≡ false
has-remove_self k [] = refl
has-remove_self k (x ∷ xs) = ground (arith, has-remove_self k xs)

pub has-remove_ne :
    (j k : String) (xs : List String) → same k j ≡ false → has j (remove k xs) ≡ has j xs
has-remove_ne j k [] ne = refl
has-remove_ne j k (x ∷ xs) ne =
    ground (arith, has-remove_ne j k xs ne, same→≡ k x, same→≡ j x, same_refl k)

remove_absent : (k : String) (xs : List String) → has k xs ≡ false → remove k xs ≡ xs
remove_absent k [] h = refl
remove_absent k (x ∷ xs) h = ground (arith, remove_absent k xs)

pub length-remove :
    (k : String) (xs : List String)
    → IsDistinct xs
    → has k xs ≡ true
    → suc (length (remove k xs)) ≡ length xs
length-remove k [] d h = absurd (ground arith)
length-remove k (x ∷ xs) d h = ground (arith, length-remove k xs, same→≡ k x, remove_absent k xs)

has_absent-remove :
    (j k : String) (xs : List String) → has j xs ≡ false → has j (remove k xs) ≡ false
has_absent-remove j k [] h = refl
has_absent-remove j k (x ∷ xs) h = ground (arith, has_absent-remove j k xs)

pub IsDistinct-remove : (k : String) (xs : List String) → IsDistinct xs → IsDistinct (remove k xs)
IsDistinct-remove k [] d = tt
IsDistinct-remove k (x ∷ xs) d =
    ground (arith, IsDistinct-remove k xs d.1, has_absent-remove x k xs d.0)

pub same_sym : (s t : String) → same s t ≡ false → same t s ≡ false
same_sym s t e = elim (Bool-cases (same t s)) [
  | inl f ↦
      let met : same s t ≡ true = subst (λ u. same s u ≡ true) (sym (same→≡ t s f)) (same_refl s) in
      ground (arith, e, met)
  | inr f ↦ f
]
