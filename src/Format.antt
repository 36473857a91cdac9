-- ===== src/Format.antt =====
-- web/src/lib/format.ts: values, gas and hashes as text.
pub mod Values
pub mod Shorten
use btc_eth_indexer.Prelude.{
  ℕ, ◌+◌, ◌*◌, ◌^◌, Bool, true, false, ◌||◌, List, [], ◌∷◌, ◌++◌, Text, codes, text_eq, is_empty,
  length, take, slice_last, ltb, if◌then◌else◌, Try, ok, throw, ◌>>=◌, catch, of_option, big_int, ℤ,
}
use btc_eth_indexer.Types.{Chain, btc, eth, is_btc}
use btc_eth_indexer.Runtime.{Runtime}

abbrev mock_price : Chain → ℕ
mock_price btc = 95432
mock_price eth = 3421

-- `hash.slice(0, startChars)...hash.slice(-endChars)`
abbrev pub ellipsis : ℕ → ℕ → Text → Text
ellipsis start_chars end_chars hash =
    take start_chars hash ++ (codes "..." ++ slice_last end_chars hash)

unfoldable pub shorten_hash : Text → ℕ → ℕ → Text
shorten_hash hash start_chars end_chars =
    if is_empty hash || ltb (length hash) (start_chars + end_chars + 3)
    then hash
    else ellipsis start_chars end_chars hash

abbrev pub shorten_address : Text → Text
shorten_address address = shorten_hash address 6 4

module _ (js : Runtime) where
  open js use {
    Num, ratio, of_big, to_number, div, mul, lt, ge, falsy, to_string, to_fixed, to_exponential,
    to_locale_string, currency,
  }

  -- a `string | number`
  pub data Scalar : Type 0 where
    str : Text → Scalar
    num : Num → Scalar

  -- `!value || value === "0"`
  abbrev pub is_blank : Scalar → Bool
  is_blank (str s) = is_empty s || text_eq s (codes "0")
  is_blank (num n) = falsy n

  -- `value.toString()`
  abbrev pub scalar_text : Scalar → Text
  scalar_text (str s) = s
  scalar_text (num n) = to_string n

  -- `BigInt(value.toString())`
  abbrev pub scalar_big : Scalar → Try ℤ
  scalar_big v = of_option (big_int (scalar_text v))

  abbrev eth_amount : ℕ → Num → Text
  eth_amount decimals v =
      if lt v (ratio 1 10000)
      then to_exponential 2 v ++ codes " ETH"
      else to_fixed decimals v ++ codes " ETH"

  abbrev btc_amount : ℕ → Num → Text
  btc_amount decimals v = to_fixed decimals v ++ codes " BTC"

  unfoldable pub format_eth : Scalar → ℕ → Try Text
  format_eth wei_value decimals =
      if is_blank wei_value
      then ok (codes "0 ETH")
      else scalar_big wei_value >>= λ wei.
          ok (eth_amount decimals (div (of_big wei) (ratio (10 ^ 18) 1)))

  unfoldable pub format_btc : Scalar → ℕ → Try Text
  format_btc satoshi_value decimals =
      if is_blank satoshi_value
      then ok (codes "0 BTC")
      else scalar_big satoshi_value >>= λ satoshi.
          ok (btc_amount decimals (div (of_big satoshi) (ratio (10 ^ 8) 1)))

  unfoldable pub format_value : Scalar → Chain → Try Text
  unfolding format_eth format_btc
  format_value value chain =
      if is_blank value
      then ok (if is_btc chain then codes "0 BTC" else codes "0 ETH")
      else if is_btc chain
      then format_btc value 8
      else format_eth value 4

  abbrev usd_amount : Num → Text
  usd_amount usd = if lt usd (ratio 1 100) then codes "< $0.01" else currency usd

  abbrev in_coins : Chain → ℤ → Num
  in_coins btc n = div (of_big n) (ratio (10 ^ 8) 1)
  in_coins eth n = div (of_big n) (ratio (10 ^ 18) 1)

  unfoldable pub format_usd : Scalar → Chain → Text
  format_usd value chain =
      if is_blank value
      then codes "$0.00"
      else catch
          (scalar_big value >>= λ n.
            ok (usd_amount (mul (in_coins chain n) (ratio (mock_price chain) 1))))
          (codes "$0.00")

  abbrev scalar_number : Scalar → Num
  scalar_number (str s) = to_number s
  scalar_number (num n) = n

  unfoldable pub format_gas : Scalar → Text
  format_gas gas =
      let gas_num = scalar_number gas in
      if ge gas_num (ratio 1000000 1)
      then to_fixed 2 (div gas_num (ratio 1000000 1)) ++ codes "M"
      else if ge gas_num (ratio 1000 1)
      then to_fixed 1 (div gas_num (ratio 1000 1)) ++ codes "K"
      else to_locale_string gas_num

  abbrev is_missing : Scalar → Bool
  is_missing (str s) = is_empty s
  is_missing (num n) = falsy n

  unfoldable pub format_gwei : Scalar → Text
  format_gwei wei =
      if is_missing wei
      then codes "0 Gwei"
      else to_fixed 2 (div (scalar_number wei) (ratio (10 ^ 9) 1)) ++ codes " Gwei"
