-- ===== src/Base/Different.antt =====
-- Lists of different numbers.
use Prim.Native.Nat.{ℕ, zero, suc, ◌+◌, ◌≤◌, ◌<◌}
use mathlib.Core.Path.{◌≡◌, refl}
use mathlib.Core.Bool.{true, false}
use mathlib.Core.List.{List, [], ◌∷◌}
use native.Mathlib.Omega.{arith}
use libp.Base.Lists.{length, has, erase, has-erase}

abbrev pub Distinct : List ℕ → Type 0
Distinct [] = Unit {0}
Distinct (x ∷ xs) = (has x xs ≡ false) × Distinct xs

pub erase_absent : (k : ℕ) (xs : List ℕ) → has k xs ≡ false → erase k xs ≡ xs
erase_absent k [] h = refl
erase_absent k (x ∷ xs) h = ground (arith, erase_absent k xs)

length-erase_ge : (k : ℕ) (xs : List ℕ) → Distinct xs → length xs ≤ length (erase k xs) + 1
length-erase_ge k [] d = omega arith
length-erase_ge k (x ∷ xs) d = ground (arith, erase_absent k xs, length-erase_ge k xs d.1)

erase-Distinct : (k : ℕ) (xs : List ℕ) → Distinct xs → Distinct (erase k xs)
erase-Distinct k [] d = tt
erase-Distinct k (x ∷ xs) d = ground (arith, has-erase k x xs, erase-Distinct k xs d.1)

-- So many different numbers below a bound are no more than the bound.
pub length-le-bound :
    (n : ℕ) (xs : List ℕ) → Distinct xs → ((p : ℕ) → has p xs ≡ true → p < n) → length xs ≤ n
length-le-bound zero [] d h = omega arith
length-le-bound zero (x ∷ xs) d h = absurd (omega (arith, h x (ground arith)))
length-le-bound (suc n) xs d h = omega (
  arith,
  length-erase_ge n xs d,
  length-le-bound n (erase n xs) (erase-Distinct n xs d)
      (λ p on. ground (arith, h p, has-erase n p xs)),
)
