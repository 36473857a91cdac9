-- ===== src/Prelude/Numerals.antt =====
-- `strconv.ParseUint(s, 10, 64)` of Go, and that it reads what is printed.
use Prim.Native.Nat.{ℕ, zero, suc, ◌+◌, ◌-◌, ◌*◌, ◌/◌, ◌%◌, ◌^◌, ◌<◌}
use mathlib.Core.Path.{◌≡◌, ap}
use mathlib.Core.Bool.{not, ◌&&◌}
use mathlib.Core.Option.{Option, none, some}
use mathlib.Core.List.{[], ◌∷◌}
use native.Mathlib.Omega.{arith}
use btc_eth_indexer.Prelude.Tests.{ltb, if◌then◌else◌}
use btc_eth_indexer.Prelude.Lists.{all, is_empty}
use btc_eth_indexer.Prelude.Strings.{Text, is_digit}
use btc_eth_indexer.Prelude.Decimal.{show, show_digits, show-digits, show-nonempty}

-- the number that digits denote behind a number
unfoldable pub read_decimal : ℕ → Text → ℕ
read_decimal n [] = n
read_decimal n (c ∷ s) = read_decimal (n * 10 + (c - b'0')) s

unfoldable pub parse_uint : Text → Option ℕ
unfolding read_decimal is_digit
parse_uint s =
    let n = read_decimal 0 s in
    if not (is_empty s) && all is_digit s && ltb n (2 ^ 64) then some n else none

digits_of : (n : ℕ) → n / 10 * 10 + (48 + n % 10 - b'0') ≡ n
digits_of n = omega arith

read_decimal-show_digits :
    (fuel n : ℕ) (out : Text)
    → n < fuel
    → read_decimal 0 (show_digits fuel n out) ≡ read_decimal n out
unfolding show_digits read_decimal
read_decimal-show_digits zero n out h = ground arith
read_decimal-show_digits (suc fuel) n out h = ground (
  arith,
  read_decimal-show_digits fuel (n / 10) ((48 + n % 10) ∷ out),
  ap (λ k. read_decimal k out) (digits_of n),
)

pub parse_uint-show : (n : ℕ) → n < 2 ^ 64 → parse_uint (show n) ≡ some n
unfolding parse_uint show read_decimal
parse_uint-show n h =
    let e : read_decimal 0 (show n) ≡ n = read_decimal-show_digits (suc n) n [] (omega arith) in
    rw (show-digits n, show-nonempty n, e) (ground arith)

pub parse_uint_bound : (s : Text) (n : ℕ) → parse_uint s ≡ some n → n < 2 ^ 64
unfolding parse_uint
parse_uint_bound s n e = ground arith
