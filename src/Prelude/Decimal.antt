-- ===== src/Prelude/Decimal.antt =====
-- The decimal text of a number, `${n}`, and the numeric texts that `Number(s)` accepts.
use Prim.Native.Nat.{ℕ, zero, suc, ◌+◌, ◌/◌, ◌%◌, ◌<◌, ◌≤◌}
use mathlib.Core.Path.{◌≡◌, refl}
use mathlib.Core.Bool.{Bool, true, false, not, ◌&&◌, ◌||◌}
use mathlib.Core.List.{[], ◌∷◌}
use native.Mathlib.Omega.{arith}
use btc_eth_indexer.Prelude.Tests.{ltb, leb, ◌==◌, if◌then◌else◌, Bool-cases}
use btc_eth_indexer.Prelude.Lists.{all, is_empty, length}
use btc_eth_indexer.Prelude.Strings.{Text, codes, is_digit, text_eq}
use mathlib.Core.Logic.{inl, inr}

-- the digits of n in front of `out`; fuel above n is enough
unfoldable pub show_digits : ℕ → ℕ → Text → Text
show_digits zero n out = out
show_digits (suc fuel) n out = elim (ltb n 10) [
  | true ↦ (48 + n) ∷ out
  | false ↦ show_digits fuel (n / 10) ((48 + n % 10) ∷ out)
]

-- `${n}` of a non-negative safe integer
unfoldable pub show : ℕ → Text
unfolding show_digits
show n = show_digits (suc n) n []

drop_digits : Text → Text
drop_digits [] = []
drop_digits (c ∷ s) = let rest = drop_digits s in if is_digit c then rest else c ∷ s

is_sign : ℕ → Bool
is_sign c = c == b'+' || c == b'-'

drop_sign : Text → Text
drop_sign [] = []
drop_sign (c ∷ s) = if is_sign c then s else c ∷ s

starts_with_digit : Text → Bool
starts_with_digit [] = false
starts_with_digit (c ∷ s) = is_digit c

-- an exponent part, or nothing
exponent_ok : Text → Bool
exponent_ok [] = true
exponent_ok (e ∷ s) =
    (e == b'e' || e == b'E') && starts_with_digit (drop_sign s) && all is_digit (drop_sign s)

-- what follows the digits before the point
fraction_ok : Bool → Text → Bool
fraction_ok whole [] = whole
fraction_ok whole (c ∷ s) =
    if c == b'.'
    then (whole || starts_with_digit s) && exponent_ok (drop_digits s)
    else whole && exponent_ok (c ∷ s)

is_decimal : Text → Bool
is_decimal s = text_eq s (codes "Infinity") || fraction_ok (starts_with_digit s) (drop_digits s)

is_hex : ℕ → Bool
is_hex c = is_digit c || (leb b'a' c && leb c b'f') || (leb b'A' c && leb c b'F')

-- digits of another base after the prefix
prefixed_ok : Text → Bool
prefixed_ok (z ∷ x ∷ s) =
    z == b'0'
    && not (is_empty s)
    && (((x == b'x' || x == b'X') && all is_hex s)
        || ((x == b'o' || x == b'O') && all (λ c. leb b'0' c && leb c b'7') s)
        || ((x == b'b' || x == b'B') && all (λ c. leb b'0' c && leb c b'1') s))
prefixed_ok _ = false

-- `!isNaN(Number(s))` of a trimmed text: the grammar StringNumericLiteral
unfoldable pub is_numeric : Text → Bool
unfolding drop_digits is_sign drop_sign starts_with_digit exponent_ok fraction_ok is_decimal is_hex
    prefixed_ok is_digit
is_numeric s = is_empty s || prefixed_ok s || is_decimal (drop_sign s)

drop_digits-all : (s : Text) → all is_digit s ≡ true → drop_digits s ≡ []
unfolding drop_digits
drop_digits-all [] h = refl
drop_digits-all (c ∷ s) h = ground (arith, drop_digits-all s)

-- A text of decimal digits is numeric.
pub digits-is_numeric : (s : Text) → all is_digit s ≡ true → is_numeric s ≡ true
unfolding is_numeric
digits-is_numeric [] h = refl
digits-is_numeric (c ∷ s) h = ground (arith, drop_digits-all s)

show_digits-digits :
    (fuel n : ℕ) (out : Text)
    → all is_digit out ≡ true
    → all is_digit (show_digits fuel n out) ≡ true
unfolding show_digits is_digit
show_digits-digits zero n out h = h
show_digits-digits (suc fuel) n out h =
    ground (arith, show_digits-digits fuel (n / 10) ((48 + n % 10) ∷ out))

show_digits-length :
    (fuel n : ℕ) (out : Text) → n < fuel → suc (length out) ≤ length (show_digits fuel n out)
unfolding show_digits
show_digits-length zero n out h = elim h [ ]
show_digits-length (suc fuel) n out h =
    ground (arith, show_digits-length fuel (n / 10) ((48 + n % 10) ∷ out))

-- `${n}` is made of decimal digits.
pub show-digits : (n : ℕ) → all is_digit (show n) ≡ true
unfolding show
show-digits n = show_digits-digits (suc n) n [] refl

-- `${n}` is not empty.
pub show-nonempty : (n : ℕ) → is_empty (show n) ≡ false
unfolding show
show-nonempty n =
    let long = show_digits-length (suc n) n [] (omega arith) in
    elim (Bool-cases (is_empty (show_digits (suc n) n []))) [
      | inl e ↦ ground (arith, long)
      | inr e ↦ e
    ]

show_tests : (show 0 ≡ codes "0") × (show 840231 ≡ codes "840231")
unfolding show
show_tests = (refl, refl)

numeric_tests :
    (is_numeric (codes "-1.5e3") ≡ true)
    × (is_numeric (codes ".") ≡ false)
    × (is_numeric (codes "0x1F") ≡ true)
    × (is_numeric (codes "1a") ≡ false)
    × (is_numeric (codes "Infinity") ≡ true)
    × (is_numeric (codes "5.") ≡ true)
unfolding is_numeric
numeric_tests = (refl, refl, refl, refl, refl, refl)
