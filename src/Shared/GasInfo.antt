-- ===== src/Shared/GasInfo.antt =====
-- web/src/components/shared/gas-info-card.tsx
use btc_eth_indexer.Prelude.{
  ℕ, zero, suc, ◌^◌, not, [], ◌++◌, Option, none, some, Text, codes, is_empty, ◌≡◌, refl, arith,
  if◌then◌else◌,
}
use btc_eth_indexer.Types.{Chain, btc, eth}
use btc_eth_indexer.Runtime.{Runtime}
use btc_eth_indexer.Html.{Html, nothing, text, icon, elem, ◌⊕◌, say, when, links}
use btc_eth_indexer.Format.{str, num, format_gas, format_gwei}

-- a number or a text that is there and not falsy
abbrev nonzero : Option ℕ → Option ℕ
nonzero none = none
nonzero (some zero) = none
nonzero (some (suc n)) = some (suc n)

module _ (js : Runtime) where
  open js use {Num, ratio, to_number, div, mul, round, to_string, to_fixed}

  -- `gasPercentage`
  unfoldable pub gas_percentage : Option ℕ → Option ℕ → Option Text
  gas_percentage used limit = elim (nonzero used) [
    | none ↦ none
    | some u ↦ elim (nonzero limit) [
      | none ↦ none
      | some l ↦ some (to_fixed 1 (mul (div (ratio u 1) (ratio l 1)) (ratio 100 1)))
    ]
  ]

  -- `feeInEth`
  abbrev pub fee_in_eth : Text → Num
  fee_in_eth fee = if is_empty fee then ratio 0 1 else div (to_number fee) (ratio (10 ^ 18) 1)

  -- `feeUsd`, at the price that is written in the component
  abbrev pub fee_usd : Text → Text
  fee_usd fee = to_fixed 2 (mul (fee_in_eth fee) (ratio 3421 1))

  abbrev btc_card : Text → Html
  btc_card fee = elem "Card" (
      elem "CardTitle" (icon "DollarSign" ⊕ say "Fee Information")
      ⊕ elem "div" (
          elem "span" (say "Transaction Fee")
          ⊕ elem "span" (
              text (
                if is_empty fee
                then codes "---"
                else to_fixed 8 (div (to_number fee) (ratio (10 ^ 8) 1)) ++ codes " BTC")))
      ⊕ elem "div" (
          elem "span" (say "Fee Rate")
          ⊕ elem "span" (
              say "~"
              ⊕ text (
                  if is_empty fee
                  then codes "---"
                  else to_string (round (div (to_number fee) (ratio 250 1))))
              ⊕ say " sat/vB")))

  abbrev percentage_view : Option Text → Html
  percentage_view none = nothing
  percentage_view (some p) = elem "span" (say "(" ⊕ text p ⊕ say "%)")

  abbrev used_view : Option ℕ → Option Text → Html
  used_view none p = nothing
  used_view (some used) p = elem "div" (
      elem "Tooltip" (say "Gas Used" ⊕ say "Amount of gas consumed by this transaction")
      ⊕ elem "div" (elem "span" (text (format_gas js (num (ratio used 1)))) ⊕ percentage_view p))

  -- a limit of 0 is rendered as the text "0"
  abbrev limit_view : Option ℕ → Html
  limit_view none = nothing
  limit_view (some zero) = say "0"
  limit_view (some (suc l)) =
      elem "div"
        (elem "span" (say "Gas Limit") ⊕ elem "span" (text (format_gas js (num (ratio (suc l) 1)))))

  abbrev price_view : Text → Html
  price_view price = when (not (is_empty price)) (
      elem "div" (
        elem "Tooltip" (say "Gas Price" ⊕ say "Price per unit of gas in Gwei")
        ⊕ elem "span" (text (format_gwei js (str price)))))

  abbrev bar_view : Option Text → Html
  bar_view none = nothing
  bar_view (some p) = elem "div" (elem "div" (say "Gas Usage") ⊕ elem "div" (elem "div" nothing))

  abbrev eth_card : Option ℕ → Option ℕ → Text → Text → Html
  eth_card used limit price fee = elem "Card" (
      elem "CardTitle" (icon "Fuel" ⊕ say "Gas Information")
      ⊕ used_view used (gas_percentage used limit)
      ⊕ limit_view limit
      ⊕ price_view price
      ⊕ elem "div" (
          elem "span" (icon "Zap" ⊕ say "Transaction Fee")
          ⊕ elem "div" (
              elem "div" (
                text (
                  if is_empty fee
                  then codes "---"
                  else to_fixed 6 (fee_in_eth fee) ++ codes " ETH"))
              ⊕ when (not (is_empty fee)) (elem "div" (text (codes "≈ $" ++ fee_usd fee)))))
      ⊕ bar_view (gas_percentage used limit))

  -- `GasInfoCard`; a price or fee that is not given is the empty text
  unfoldable pub gas_info_card : Option ℕ → Option ℕ → Text → Text → Chain → Html
  unfolding gas_percentage
  gas_info_card used limit price fee btc = btc_card fee
  gas_info_card used limit price fee eth = eth_card used limit price fee

  links-used_view : (used : Option ℕ) (p : Option Text) → links (used_view used p) ≡ []
  unfolding links
  links-used_view none p = refl
  links-used_view (some u) none = refl
  links-used_view (some u) (some p) = refl

  links-limit_view : (limit : Option ℕ) → links (limit_view limit) ≡ []
  unfolding links
  links-limit_view none = refl
  links-limit_view (some zero) = refl
  links-limit_view (some (suc l)) = refl

  links-price_view : (price : Text) → links (price_view price) ≡ []
  unfolding links
  links-price_view price = ground arith

  links-bar_view : (p : Option Text) → links (bar_view p) ≡ []
  unfolding links
  links-bar_view none = refl
  links-bar_view (some p) = refl

  pub links-gas_info_card :
      (used limit : Option ℕ) (price fee : Text) (chain : Chain)
      → links (gas_info_card used limit price fee chain) ≡ []
  unfolding gas_info_card links
  links-gas_info_card used limit price fee btc = refl
  links-gas_info_card used limit price fee eth =
      rw
        (
          links-used_view used (gas_percentage used limit),
          links-limit_view limit,
          links-price_view price,
          links-bar_view (gas_percentage used limit),
        )
        (ground arith)
