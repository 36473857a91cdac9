-- ===== src/Prelude/BigInt.antt =====
-- Integers, and the texts that `BigInt(s)` accepts.
use Prim.Native.Nat.{ℕ, zero, suc, ◌+◌, ◌*◌, ◌-◌}
use mathlib.Core.Path.{◌≡◌, refl}
use mathlib.Core.Bool.{◌&&◌, ◌||◌}
use mathlib.Core.Option.{Option, none, some}
use mathlib.Core.List.{[], ◌∷◌}
use btc_eth_indexer.Prelude.Tests.{ltb, leb, ◌==◌, if◌then◌else◌}
use btc_eth_indexer.Prelude.Strings.{Text, codes, trim, is_digit}

-- `negsuc n` is -(n + 1)
pub data ℤ : Type 0 where
  pos : ℕ → ℤ
  negsuc : ℕ → ℤ

abbrev pub negate : ℕ → ℤ
negate zero = pos 0
negate (suc n) = negsuc n

-- the value of a digit in a base up to 16
unfoldable pub digit_value : ℕ → ℕ → Option ℕ
digit_value base c =
    let v =
      if is_digit c
      then c - 48
      else if leb b'a' c && leb c b'f'
      then c - 87
      else if leb b'A' c && leb c b'F'
      then c - 55
      else 16 in
    if ltb v base then some v else none

-- the value of a text of digits behind the digits read so far
unfoldable pub read_digits : ℕ → ℕ → Text → Option ℕ
read_digits base n [] = some n
read_digits base n (c ∷ s) = elim (digit_value base c) [
  | none ↦ none
  | some d ↦ read_digits base (n * base + d) s
]

abbrev pub some_digits : ℕ → Text → Option ℕ
some_digits base [] = none
some_digits base (c ∷ s) = read_digits base 0 (c ∷ s)

abbrev pub as_integer : (ℕ → ℤ) → Option ℕ → Option ℤ
as_integer f none = none
as_integer f (some n) = some (f n)

abbrev read_prefixed : ℕ → Text → Text → Option ℤ
read_prefixed x whole s =
    if x == b'x' || x == b'X'
    then as_integer pos (some_digits 16 s)
    else if x == b'o' || x == b'O'
    then as_integer pos (some_digits 8 s)
    else if x == b'b' || x == b'B'
    then as_integer pos (some_digits 2 s)
    else as_integer pos (some_digits 10 whole)

abbrev read_trimmed : Text → Option ℤ
read_trimmed [] = some (pos 0)
read_trimmed (c ∷ []) = as_integer pos (some_digits 10 (c ∷ []))
read_trimmed (c ∷ x ∷ s) =
    if c == b'-'
    then as_integer negate (some_digits 10 (x ∷ s))
    else if c == b'+'
    then as_integer pos (some_digits 10 (x ∷ s))
    else if c == b'0'
    then read_prefixed x (c ∷ x ∷ s) s
    else as_integer pos (some_digits 10 (c ∷ x ∷ s))

-- `BigInt(s)`; `none` where it throws a SyntaxError
unfoldable pub big_int : Text → Option ℤ
unfolding read_digits digit_value
big_int s = read_trimmed (trim s)

big_int_tests :
    (big_int (codes "1000000000000000000") ≡ some (pos 1000000000000000000))
    × (big_int (codes " -12 ") ≡ some (negsuc 11))
    × (big_int (codes "0xff") ≡ some (pos 255))
    × (big_int (codes "1.5") ≡ none)
    × (big_int (codes "") ≡ some (pos 0))
unfolding big_int trim is_digit
big_int_tests = (refl, refl, refl, refl, refl)

abbrev signed : ℕ → Text → Text → Option ℤ
signed c whole s =
    if c == b'-'
    then as_integer negate (some_digits 10 s)
    else if c == b'+'
    then as_integer pos (some_digits 10 s)
    else as_integer pos (some_digits 10 whole)

-- Go's `new(big.Int).SetString(s, 10)`: an optional sign and decimal digits
unfoldable pub set_string : Text → Option ℤ
unfolding read_digits digit_value
set_string [] = none
set_string (c ∷ s) = signed c (c ∷ s) s

set_string_tests :
    (set_string (codes "120") ≡ some (pos 120))
    × (set_string (codes "-3") ≡ some (negsuc 2))
    × (set_string (codes "0x1") ≡ none)
    × (set_string (codes "") ≡ none)
unfolding set_string is_digit read_digits digit_value
set_string_tests = (refl, refl, refl, refl)
