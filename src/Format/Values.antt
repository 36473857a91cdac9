-- ===== src/Format/Values.antt =====
-- Which values can be formatted, and what the result says.
use btc_eth_indexer.Prelude.{
  false, ◌++◌, none, Text, codes, if◌then◌else◌, ok, throw, ◌>>=◌, big_int, ℤ, ◌≡◌, ◌↔◌, refl,
  arith, Bool-cases, Option-cases, inl, inr,
}
use btc_eth_indexer.Types.{Chain, btc, eth, is_btc}
use btc_eth_indexer.Runtime.{Runtime}
use btc_eth_indexer.Format.{
  Scalar, is_blank, scalar_text, scalar_big, in_coins, btc_amount, eth_amount, format_value,
  format_usd,
}

abbrev pub unit_text : Chain → Text
unit_text btc = codes " BTC"
unit_text eth = codes " ETH"

module _ (js : Runtime) where
  -- the text of an integer amount
  amount_text : Chain → ℤ → Text
  amount_text btc n = btc_amount js 8 (in_coins js btc n)
  amount_text eth n = eth_amount js 4 (in_coins js eth n)

  format_value_lem :
      (v : Scalar js) (c : Chain)
      → format_value js v c ≡ (
          if is_blank js v
          then ok (if is_btc c then codes "0 BTC" else codes "0 ETH")
          else scalar_big js v >>= λ n. ok (amount_text c n))
  unfolding format_value amount_text
  format_value_lem v btc = elim (Bool-cases (is_blank js v)) [
    | inl e ↦ rw e refl
    | inr e ↦ rw e refl
  ]
  format_value_lem v eth = elim (Bool-cases (is_blank js v)) [
    | inl e ↦ rw e refl
    | inr e ↦ rw e refl
  ]

  -- `formatValue` throws exactly for the values, neither blank nor "0", whose text is no integer.
  pub format_value-eq-throw_iff :
      (v : Scalar js) (c : Chain)
      → (format_value js v c ≡ throw)
        ↔ ((is_blank js v ≡ false) × (big_int (scalar_text js v) ≡ none))
  format_value-eq-throw_iff v c = rw (format_value_lem v c) (ground arith)

  amount_text_unit : (c : Chain) (n : ℤ) → (p : Text) × (amount_text c n ≡ p ++ unit_text c)
  unfolding amount_text
  amount_text_unit btc n = (js.to_fixed 8 (in_coins js btc n), refl)
  amount_text_unit eth n = elim (Bool-cases (js.lt (in_coins js eth n) (js.ratio 1 10000))) [
    | inl e ↦ (js.to_exponential 2 (in_coins js eth n), rw e refl)
    | inr e ↦ (js.to_fixed 4 (in_coins js eth n), rw e refl)
  ]

  zero_unit :
      (c : Chain)
      → (p : Text) × ((if is_btc c then codes "0 BTC" else codes "0 ETH") ≡ p ++ unit_text c)
  zero_unit btc = (codes "0", refl)
  zero_unit eth = (codes "0", refl)

  -- What `formatValue` returns is an amount followed by the unit of the chain.
  pub format_value_unit :
      (v : Scalar js) (c : Chain) (r : Text)
      → format_value js v c ≡ ok r
      → (amount : Text) × (r ≡ amount ++ unit_text c)
  format_value_unit v c r e =
      let f = rw (format_value_lem v c) at e in
      elim (Bool-cases (is_blank js v)) [
        | inl blank ↦ let (p, same) = zero_unit c in (p, cc (rw blank at f, same))
        | inr filled ↦ elim (Option-cases (big_int (scalar_text js v))) [
          | inl bad ↦ absurd (cc (rw (filled, bad) at f))
          | inr (n, good) ↦
              let (p, same) = amount_text_unit c n in (p, cc (rw (filled, good) at f, same))
        ]
      ]

  -- `formatUsd` returns for every value; where `formatValue` throws it says "$0.00".
  pub format_usd_of_throw :
      (v : Scalar js) (c : Chain) → format_value js v c ≡ throw → format_usd js v c ≡ codes "$0.00"
  unfolding format_usd
  format_usd_of_throw v c e =
      let (filled, bad) = (format_value-eq-throw_iff v c).0 e in rw (filled, bad) refl
