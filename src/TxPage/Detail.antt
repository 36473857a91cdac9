-- ===== src/TxPage/Detail.antt =====
-- web/src/features/transaction/components/tx-detail.tsx: a card that no page renders.
use btc_eth_indexer.Prelude.{Bool, true, false, [], Option, none, some, Text, show, Try, ok, ◌>>=◌}
use btc_eth_indexer.Types.{Chain, chain_text, Transaction}
use btc_eth_indexer.Runtime.{Runtime}
use btc_eth_indexer.Html.{Html, text, icon, elem, link, button, ◌⊕◌, say}
use btc_eth_indexer.Format.{str}
use btc_eth_indexer.Pages.{block_path}
use btc_eth_indexer.Shared.AddressLink.{address_link}
use btc_eth_indexer.Shared.Badges.{chain_badge, status_badge}
use btc_eth_indexer.Shared.HashText.{hash_text}
use btc_eth_indexer.Shared.ValueDisplay.{value_display}
use btc_eth_indexer.Shared.GasInfo.{gas_info_card}
use btc_eth_indexer.Shared.InputData.{input_data_viewer}
use btc_eth_indexer.AddressList.{present}
use btc_eth_indexer.BlockPage.TransactionList.{or_coinbase}

-- `tx.ToAddr ? <AddressLink … /> : <span>Contract Creation</span>`
abbrev pub receiver_view : Chain → Bool → Option Text → Html
receiver_view chain label none = elem "span" (say "Contract Creation")
receiver_view chain label (some a) = address_link a chain label true

abbrev raw_text : Option Text → Text
raw_text none = []
raw_text (some s) = s

module _ (js : Runtime) (tx : Transaction) (chain : Chain) where
  abbrev detail_header : Html
  detail_header = elem "div" (
      elem "div" (
        link (block_path (chain_text chain) (show tx.block_height))
          (button false (icon "ArrowLeft"))
        ⊕ elem "span" (say "Back to Block #" ⊕ text (show tx.block_height)))
      ⊕ elem "div"
          (chain_badge (chain_text chain) ⊕ status_badge tx.status ⊕ elem "span" (text tx.tx_hash)))

  -- the flow, which shows the value once for wide and once for narrow screens
  abbrev detail_flow : Html → Html
  detail_flow value = elem "Card" (
      elem "div" (
        elem "div" (say "From") ⊕ address_link (or_coinbase (present tx.from_addr)) chain true true)
      ⊕ elem "div" (elem "div" (icon "CircleDollarSign" ⊕ value) ⊕ icon "ArrowRight")
      ⊕ elem "div" (elem "div" (icon "CircleDollarSign" ⊕ value) ⊕ icon "ArrowRight")
      ⊕ elem "div" (elem "div" (say "To") ⊕ receiver_view chain true (present tx.to_addr)))

  abbrev detail_rows : Html
  detail_rows = elem "Card" (
      elem "CardTitle" (say "Transaction Details")
      ⊕ elem "div" (elem "span" (say "Tx Hash") ⊕ hash_text tx.tx_hash 14 12 true false)
      ⊕ elem "div" (
          elem "span" (say "Block Height")
          ⊕ link (block_path (chain_text chain) (show tx.block_height)) (
              elem "span" (say "#" ⊕ text (js.to_locale_string (js.ratio tx.block_height 1)))
              ⊕ icon "ExternalLink"))
      ⊕ elem "div" (elem "span" (say "Status") ⊕ status_badge tx.status)
      ⊕ elem "div" (elem "span" (say "Block Hash") ⊕ hash_text tx.block_hash 10 10 true false))

  -- `TxDetail`, with nothing copied yet; it throws where a `ValueDisplay` does
  unfoldable pub tx_detail : Try Html
  tx_detail = value_display js (str tx.value) chain true >>= λ value. ok (
      elem "div" (
        detail_header
        ⊕ detail_flow value
        ⊕ elem "div" (detail_rows ⊕ gas_info_card js tx.gas_used none [] tx.fee chain)
        ⊕ input_data_viewer js (raw_text tx.raw_data) false))
