-- ===== src/AddressPage/StatsCard.antt =====
-- web/src/features/address/components/address-stats.tsx: a card that no page renders.
use btc_eth_indexer.Prelude.{ℕ, Bool, false, Text, codes, String, Try, if◌then◌else◌}
use btc_eth_indexer.Types.{Chain, AddressStats}
use btc_eth_indexer.Runtime.{Runtime}
use btc_eth_indexer.Html.{Html, nothing, icon, elem, button, ◌⊕◌, say}
use btc_eth_indexer.Query.{Query}
use btc_eth_indexer.AddressList.{currency}
use btc_eth_indexer.AnimatedNumber.{animated_number}
use btc_eth_indexer.AddressPage.{amount, stat_text, tx_total}

-- a card of the grid: its title, a bar in the place of a number that is loading, and its icon
abbrev grid_card : String → String → Bool → Html → Html
grid_card title sign loading value = elem "GlassCard" (
    elem "span" (say title)
    ⊕ elem "div" (if loading then elem "div" nothing else value)
    ⊕ elem "div" (icon sign))

module _ (js : Runtime) (format_units : Text → ℕ → Try Text) where
  abbrev shown : ℕ → js.Num → Html
  shown decimals n = animated_number js (codes "") (codes "") decimals (codes ",") n

  abbrev field_amount : Chain → Query AddressStats → (AddressStats → Text) → js.Num
  field_amount chain q field = amount js format_units (stat_text field q.data') chain

  -- `AddressStats`; the QR code is a component of another package
  unfoldable pub address_stats_card : Chain → Text → Bool → Query AddressStats → Html
  address_stats_card chain address copied q = elem "div" (
      elem "GlassCard" (
        icon "QRCode"
        ⊕ button false (
            if copied
            then icon "Check" ⊕ elem "span" (say "Copied!")
            else icon "Copy" ⊕ elem "span" (say "Copy Address")))
      ⊕ elem "div" (
          grid_card "Balance" "Wallet" q.is_loading
            (shown 4 (field_amount chain q (λ s. s.balance)) ⊕ elem "span" (say (currency chain)))
          ⊕ grid_card "Received" "ArrowDownLeft" q.is_loading
              (say "+" ⊕ shown 4 (field_amount chain q (λ s. s.total_received)))
          ⊕ grid_card "Sent" "ArrowUpRight" q.is_loading
              (say "-" ⊕ shown 4 (field_amount chain q (λ s. s.total_sent)))
          ⊕ grid_card "Transactions" "History" q.is_loading
              (shown 0 (js.ratio (tx_total q.data') 1))))
