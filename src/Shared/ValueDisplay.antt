-- ===== src/Shared/ValueDisplay.antt =====
-- web/src/components/shared/value-display.tsx and gas-info-card.tsx
use btc_eth_indexer.Prelude.{
  Bool, false, ◌++◌, Text, codes, Try, ok, throw, ◌>>=◌, if◌then◌else◌, ◌≡◌, ◌↔◌, arith, big_int,
  none,
}
use btc_eth_indexer.Types.{Chain, is_btc}
use btc_eth_indexer.Runtime.{Runtime}
use btc_eth_indexer.Html.{Html, text, elem, ◌⊕◌, say, when}
use btc_eth_indexer.Format.{Scalar, scalar_text, is_blank, format_value, format_usd}
use btc_eth_indexer.Format.Values.{format_value-eq-throw_iff}

module _ (js : Runtime) where
  abbrev value_view : Text → Text → Chain → Bool → Text → Html
  value_view formatted usd chain show_usd value = elem "Tooltip" (
      elem "div"
        (elem "span" (text formatted) ⊕ when show_usd (elem "span" (text (codes "≈ " ++ usd))))
      ⊕ elem "TooltipContent" (
          elem "p" (text value)
          ⊕ elem "p" (say "Raw value in " ⊕ (if is_btc chain then say "satoshi" else say "wei"))))

  -- `ValueDisplay`; an exception of `formatValue` is one of the component
  unfoldable pub value_display : Scalar js → Chain → Bool → Try Html
  value_display value chain show_usd = format_value js value chain >>= λ formatted.
      ok (value_view formatted (format_usd js value chain) chain show_usd (scalar_text js value))

  -- The component fails to render exactly for the values, neither blank nor "0", whose text is no
  -- integer.
  pub value_display-eq-throw_iff :
      (v : Scalar js) (c : Chain) (show_usd : Bool)
      → (value_display v c show_usd ≡ throw)
        ↔ ((is_blank js v ≡ false) × (big_int (scalar_text js v) ≡ none))
  unfolding value_display
  value_display-eq-throw_iff v c show_usd = ground (arith, format_value-eq-throw_iff js v c)
