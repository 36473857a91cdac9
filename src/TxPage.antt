-- ===== src/TxPage.antt =====
-- web/src/app/tx/[chain]/[hash]/page.tsx: the page of a transaction.
pub mod Links
pub mod Detail
use btc_eth_indexer.Prelude.{
  ℕ, ◌^◌, Bool, true, false, ◌||◌, List, [], ◌∷◌, ◌++◌, Option, none, some, Text, codes, is_empty,
  text_eq, show, if◌then◌else◌, Try, ok, throw, ◌>>=◌, catch, of_option, big_int,
}
use btc_eth_indexer.Types.{Chain, btc, eth, chain_text, is_btc, Transaction}
use btc_eth_indexer.Runtime.{Runtime}
use btc_eth_indexer.Html.{Html, nothing, text, icon, elem, link, button, ◌⊕◌, say}
use btc_eth_indexer.Query.{Query, message_or}
use btc_eth_indexer.Format.{ellipsis}
use btc_eth_indexer.Pages.{block_path, address_path, chain_of_param}
use btc_eth_indexer.AddressList.{present, currency}

module _ (js : Runtime) where
  open js use {Num, ratio, of_big, parse_int, div, to_fixed, to_locale_string}

  -- `formatValue` of the page
  unfoldable pub long_value : Text → Chain → Text
  long_value value eth =
      if is_empty value || text_eq value (codes "0")
      then codes "0"
      else catch
          (of_option (big_int value) >>= λ wei.
            ok (to_fixed 6 (div (of_big wei) (ratio (10 ^ 18) 1))))
          (codes "0")
  long_value value btc =
      if is_empty value || text_eq value (codes "0")
      then codes "0"
      else to_fixed 8 (div (parse_int value) (ratio (10 ^ 8) 1))

abbrev state_view : Html → Html → Html → Html
state_view sign title note =
    elem "div" (elem "div" sign ⊕ elem "div" (elem "span" title ⊕ elem "p" note))

-- `StatusIndicator`
unfoldable pub status_indicator : Text → Html
status_indicator status =
    if text_eq status (codes "finalized")
    then state_view (icon "CheckCircle2") (say "Success") (say "Finalized")
    else if text_eq status (codes "orphaned") || text_eq status (codes "failed")
    then state_view (icon "XCircle") (say "Failed") (say "Reverted")
    else state_view (icon "Timer") (say "Pending") (say "Processing")

-- `EthIcon` or the icon of Bitcoin
abbrev pub chain_icon : Chain → Html
chain_icon btc = icon "Bitcoin"
chain_icon eth = icon "EthIcon"

-- the link of an address, or the text in its place
abbrev pub party_view : Chain → Option Text → Html → Html
party_view chain none fallback = elem "span" fallback
party_view chain (some a) fallback =
    link (address_path (chain_text chain) a) (text (ellipsis 10 8 a))

abbrev loading_view : Html
loading_view = elem "div" (icon "Loader2" ⊕ elem "p" (say "Loading transaction..."))

abbrev missing_view : Option Text → Html
missing_view error = elem "div" (
    icon "Hash"
    ⊕ elem "h2" (say "Transaction Not Found")
    ⊕ elem "p" (
        text (
          message_or
            (codes "Unable to fetch transaction. It may not exist or hasn't been indexed yet.")
            error))
    ⊕ link (codes "/") (button false (icon "ArrowLeft" ⊕ say "Back to Dashboard")))

abbrev or_text : Text → Option Text → Text
or_text fallback none = fallback
or_text fallback (some s) = s

-- `tx.TxIndex !== undefined ? … : "N/A"`
abbrev index_text : Option ℕ → Text
index_text none = codes "N/A"
index_text (some n) = codes "#" ++ show n

abbrev gas_text : Runtime → Option ℕ → Text
gas_text js none = codes "N/A"
gas_text js (some n) =
    let s = js.to_locale_string (js.ratio n 1) in if is_empty s then codes "N/A" else s

module _ (js : Runtime) (chain : Chain) (tx : Transaction) where
  abbrev height_text : Text
  height_text = js.to_locale_string (js.ratio tx.block_height 1)

  abbrev block_link : Html → Html
  block_link v = link (block_path (chain_text chain) (show tx.block_height)) v

  abbrev amount_view : Text → Html
  amount_view amount =
      elem "span" (text (long_value js amount chain) ⊕ say " " ⊕ say (currency chain))

  abbrev hero_view : Bool → Html
  hero_view copied = elem "section" (
      block_link (icon "ArrowLeft" ⊕ say "Block #" ⊕ text height_text)
      ⊕ elem "div" (
          chain_icon chain
          ⊕ elem "span" (text (chain_text chain) ⊕ say " Transaction")
          ⊕ elem "code" (text tx.tx_hash)
          ⊕ button false (if copied then icon "Check" else icon "Copy"))
      ⊕ status_indicator tx.status)

  abbrev flow_view : Html
  flow_view = elem "section" (
      elem "div" (icon "Sparkles" ⊕ amount_view tx.value)
      ⊕ elem "div"
          (elem "p" (say "From") ⊕ party_view chain (present tx.from_addr) (say "Coinbase"))
      ⊕ elem "div" (icon "ArrowRight" ⊕ icon "ArrowRight")
      ⊕ elem "div"
          (elem "p" (say "To") ⊕ party_view chain (present tx.to_addr) (say "Contract Creation")))

  abbrev details_view : Html
  details_view = elem "section" (
      elem "div" (
        elem "h3" (icon "Hash" ⊕ say "Transaction Details")
        ⊕ elem "div" (
            elem "span" (say "Block")
            ⊕ block_link (elem "span" (say "#" ⊕ text height_text) ⊕ icon "ExternalLink"))
        ⊕ elem "div" (elem "span" (say "Status") ⊕ status_indicator tx.status)
        ⊕ elem "div" (elem "span" (say "Block Hash") ⊕ text (ellipsis 10 8 tx.block_hash))
        ⊕ elem "div" (elem "span" (say "Position in Block") ⊕ text (index_text tx.tx_index)))
      ⊕ elem "div" (
          elem "h3" (icon "Fuel" ⊕ say "Gas & Fees")
          ⊕ elem "div" (elem "span" (say "Gas Used") ⊕ text (gas_text js tx.gas_used))
          ⊕ elem "div" (elem "span" (say "Transaction Fee") ⊕ amount_view tx.fee)
          ⊕ elem "div" (elem "span" (say "Value Transferred") ⊕ amount_view tx.value)))

  -- the view of a transaction
  unfoldable pub tx_view : Bool → Html
  unfolding long_value status_indicator
  tx_view copied = elem "div" (hero_view copied ⊕ flow_view ⊕ details_view)

abbrev tx_or_missing : Runtime → Chain → Bool → Query Transaction → Option Transaction → Html
tx_or_missing js chain copied q none = missing_view q.error_message
tx_or_missing js chain copied q (some tx) =
    if q.is_error then missing_view q.error_message else tx_view js chain tx copied

-- `TxPage` for the chain of its address
unfoldable pub tx_page : Runtime → Text → Bool → Query Transaction → Html
unfolding tx_view
tx_page js chain copied q =
    if q.is_loading then loading_view else tx_or_missing js (chain_of_param chain) copied q q.data'
