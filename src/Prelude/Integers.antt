-- ===== src/Prelude/Integers.antt =====
-- Integer arithmetic over the native numbers: Go's big.Int, and sums of integers.
use Prim.Native.Nat.{ℕ, suc, ◌+◌, ◌-◌}
use mathlib.Core.Path.{◌≡◌, refl}
use mathlib.Core.Bool.{Bool, true, false}
use mathlib.Core.List.{List, [], ◌∷◌, ◌++◌}
use native.Mathlib.Omega.{arith}
use btc_eth_indexer.Prelude.Tests.{leb, if◌then◌else◌}
use btc_eth_indexer.Prelude.BigInt.{ℤ, pos, negsuc}

abbrev pub pos_part : ℤ → ℕ
pos_part (pos n) = n
pos_part (negsuc n) = 0

abbrev pub neg_part : ℤ → ℕ
neg_part (pos n) = 0
neg_part (negsuc n) = suc n

abbrev sub_ℕ : ℕ → ℕ → ℤ
sub_ℕ a b = if leb b a then pos (a - b) else negsuc (b - a - 1)

infixl 65 ◌+ℤ◌ ◌-ℤ◌
unfoldable pub ◌+ℤ◌ : ℤ → ℤ → ℤ
a +ℤ b = sub_ℕ (pos_part a + pos_part b) (neg_part a + neg_part b)

unfoldable pub ◌-ℤ◌ : ℤ → ℤ → ℤ
a -ℤ b = sub_ℕ (pos_part a + neg_part b) (neg_part a + pos_part b)

-- with these the operations can stay shut
pub +ℤ_parts :
    (a b : ℤ)
    → pos_part (a +ℤ b) + neg_part a + neg_part b ≡ neg_part (a +ℤ b) + pos_part a + pos_part b
unfolding ◌+ℤ◌
+ℤ_parts a b = ground arith

pub -ℤ_parts :
    (a b : ℤ)
    → pos_part (a -ℤ b) + neg_part a + pos_part b ≡ neg_part (a -ℤ b) + pos_part a + neg_part b
unfolding ◌-ℤ◌
-ℤ_parts a b = ground arith

pub eq_of_parts : (a b : ℤ) → pos_part a + neg_part b ≡ pos_part b + neg_part a → a ≡ b
eq_of_parts a b h = ground arith

pub ruleset int_laws = (arith, +ℤ_parts, -ℤ_parts, eq_of_parts)

module _ {ℓ} {A : Type ℓ} (f : A → ℤ) where
  abbrev pub sum : List A → ℤ
  sum [] = pos 0
  sum (x ∷ xs) = f x +ℤ sum xs

  pub sum-append : (xs ys : List A) → sum (xs ++ ys) ≡ sum xs +ℤ sum ys
  sum-append [] ys = omega int_laws
  sum-append (x ∷ xs) ys = rw (sum-append xs ys) (omega int_laws)

  pub sum-if :
      (b : Bool) (x : A) (xs : List A)
      → sum (if b then x ∷ xs else xs) ≡ (if b then f x else pos 0) +ℤ sum xs
  sum-if true x xs = refl
  sum-if false x xs = omega int_laws
