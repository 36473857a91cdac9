-- ===== src/AddressPage.antt =====
-- web/src/app/address/[chain]/[address]/page.tsx: the page of an address.
pub mod TokenList
pub mod Links
pub mod StatsCard
use btc_eth_indexer.Prelude.{
  ℕ, ◌^◌, Bool, true, false, ◌||◌, List, [], ◌∷◌, ◌++◌, Option, none, some, Text, codes, is_empty,
  text_eq, show, length, if◌then◌else◌, Try, ok, throw, ◌>>=◌, catch, String,
}
use btc_eth_indexer.Types.{
  Chain, btc, eth, chain_text, is_btc, Transaction, TxResponse, Contract, AddressStats,
}
use btc_eth_indexer.Runtime.{Runtime}
use btc_eth_indexer.Html.{Html, nothing, text, icon, elem, link, button, ◌⊕◌, say, when}
use btc_eth_indexer.Query.{Query, message_or}
use btc_eth_indexer.Format.{ellipsis}
use btc_eth_indexer.Pages.{address_path, chain_of_param}
use btc_eth_indexer.AddressList.{Direction, currency, address_transaction_list}
use btc_eth_indexer.AnimatedNumber.{animated_number}
use btc_eth_indexer.TxPage.{chain_icon}
use btc_eth_indexer.AddressPage.TokenList.{TokenBalance, token_list}

-- The state of the page and of the list in it, and what its queries hold.
pub record AddressState : Type 0 where
  pub copied : Bool
  pub show_qr : Bool
  pub direction : Direction
  pub contract : Option Contract
  pub stats : Query AddressStats
  pub tokens : Query (List TokenBalance)
  pub txs : Query TxResponse

abbrev stat_text : (AddressStats → Text) → Option AddressStats → Text
stat_text field none = []
stat_text field (some s) = field s

abbrev tx_total : Option AddressStats → ℕ
tx_total none = 0
tx_total (some s) = s.tx_count

abbrev address_loading : Html
address_loading = elem "div" (icon "Loader2" ⊕ elem "p" (say "Loading address data..."))

abbrev address_missing : Option Text → Html
address_missing error = elem "div" (
    icon "Shield"
    ⊕ elem "h2" (say "Address Not Found")
    ⊕ elem "p" (
        text (
          message_or
            (codes "Unable to fetch address data. It may not exist or hasn't been indexed yet.")
            error))
    ⊕ link (codes "/") (button false (icon "ArrowLeft" ⊕ say "Back to Dashboard")))

-- `formatUnits` of the package ethers, which throws on a text that is no integer
module _ (js : Runtime) (format_units : Text → ℕ → Try Text) where
  open js use {Num, ratio, parse_int, parse_float, div}

  -- `formatValue` of the page; an absent text is empty
  unfoldable pub amount : Text → Chain → Num
  amount value eth =
      if is_empty value || text_eq value (codes "0")
      then ratio 0 1
      else catch (format_units value 18 >>= λ s. ok (parse_float s)) (ratio 0 1)
  amount value btc =
      if is_empty value || text_eq value (codes "0")
      then ratio 0 1
      else div (parse_int value) (ratio (10 ^ 8) 1)

  abbrev animated : ℕ → Num → Html
  animated decimals n = animated_number js (codes "") (codes "") decimals (codes ",") n

  abbrev coins : Chain → Text → Html
  coins chain value = animated 4 (amount value chain) ⊕ elem "span" (say (currency chain))

  abbrev pub stat_card : String → Text → Bool → Html → Html
  stat_card sign title loading value = elem "div" (
      icon sign
      ⊕ elem "span" (text title)
      ⊕ (if loading then elem "div" nothing else elem "div" value))

  abbrev pub creator_view : Chain → Option Contract → Html
  creator_view chain none = nothing
  creator_view chain (some c) = elem "div" (
      say "Created by "
      ⊕ link (address_path (chain_text chain) c.creator_addr) (text (ellipsis 8 6 c.creator_addr)))

  abbrev pub contract_badge : Option Contract → Html
  contract_badge none = nothing
  contract_badge (some c) = elem "span" (icon "FileCode" ⊕ say "Contract")

  module _ (chain : Chain) (address : Text) (s : AddressState) where
    abbrev pub address_header : Html
    address_header = elem "section" (
        link (codes "/") (icon "ArrowLeft" ⊕ say "Back to Dashboard")
        ⊕ elem "div" (
            chain_icon chain
            ⊕ elem "span" (text (chain_text chain))
            ⊕ contract_badge s.contract
            ⊕ elem "code" (text address)
            ⊕ button false
                (if s.copied then icon "Check" ⊕ say "Copied!" else icon "Copy" ⊕ say "Copy")
            ⊕ button false (icon "QrCode" ⊕ say "QR Code")
            ⊕ creator_view chain s.contract)
        ⊕ stat_card "Wallet" (codes "Balance") s.stats.is_loading
            (coins chain (stat_text (λ t. t.balance) s.stats.data'))
        ⊕ when s.show_qr (elem "div" (icon "QRCode" ⊕ elem "p" (say "Scan to copy address"))))

    abbrev pub address_numbers : Html
    address_numbers = elem "div" (
        stat_card "ArrowDownLeft" (codes "Total Received") s.stats.is_loading
          (say "+" ⊕ coins chain (stat_text (λ t. t.total_received) s.stats.data'))
        ⊕ stat_card "ArrowUpRight" (codes "Total Sent") s.stats.is_loading
            (say "-" ⊕ coins chain (stat_text (λ t. t.total_sent) s.stats.data'))
        ⊕ stat_card "History" (codes "Transactions") s.stats.is_loading
            (animated 0 (ratio (tx_total s.stats.data') 1) ⊕ elem "span" (say "total")))

    -- the view of an address whose transactions are loaded
    unfoldable pub address_view : List Transaction → Html
    address_view txs = elem "div" (
        address_header
        ⊕ elem "section" (
            address_numbers
            ⊕ (if is_btc chain then nothing else token_list s.tokens)
            ⊕ elem "div" (
                elem "h2" (icon "History" ⊕ say "Transaction History")
                ⊕ elem "p" (text (show (length txs)) ⊕ say " transactions found")
                ⊕ address_transaction_list js chain address s.direction txs)))

    abbrev view_or_missing : Option TxResponse → Html
    view_or_missing none = address_missing s.txs.error_message
    view_or_missing (some r) =
        if s.txs.is_error then address_missing s.txs.error_message else address_view r.transactions

  -- `AddressPage` for the parameters of its address
  unfoldable pub address_page : Text → Text → AddressState → Html
  unfolding address_view amount
  address_page chain address s =
      if s.txs.is_loading
      then address_loading
      else view_or_missing (chain_of_param chain) address s s.txs.data'
