-- ===== src/Landing/Home.antt =====
-- web/src/app/page.tsx: the home page.
use btc_eth_indexer.Prelude.{
  ℕ, ◌-◌, ◌/◌, Bool, true, ◌&&◌, List, [], ◌++◌, Option, none, some, Text, codes, text_eq, show,
  take, length, ltb, is_empty, ◌==◌, if◌then◌else◌,
}
use btc_eth_indexer.Types.{Chain, btc, eth, chain_text, Block, Transaction}
use btc_eth_indexer.Runtime.{Runtime}
use btc_eth_indexer.Html.{Html, nothing, text, icon, elem, link, ◌⊕◌, say, when, each}
use btc_eth_indexer.Query.{Query}
use btc_eth_indexer.Format.{ellipsis}
use btc_eth_indexer.Pages.{block_path, tx_path, stats_path}
use btc_eth_indexer.AddressList.{present, currency, short_value}
use btc_eth_indexer.AnimatedNumber.{animated_number}
use btc_eth_indexer.TxPage.{chain_icon}

-- `xs?.slice(0, n)`, and `!xs || xs.length === 0`
abbrev pub first_txs : ℕ → Option (List Transaction) → List Transaction
first_txs n none = []
first_txs n (some txs) = take n txs

abbrev pub no_txs : Option (List Transaction) → Bool
no_txs none = true
no_txs (some txs) = is_empty txs

abbrev tx_count : Option (List Transaction) → ℕ
tx_count none = 0
tx_count (some txs) = length txs

-- `latest?.Height || 'latest'` in a template string
abbrev pub height_or_latest : Option Block → Text
height_or_latest none = codes "latest"
height_or_latest (some b) = if b.height == 0 then codes "latest" else show b.height

-- `latest?.Height || 0`
abbrev height_or_zero : Option Block → ℕ
height_or_zero none = 0
height_or_zero (some b) = b.height

abbrev party_text : Option Text → Text → Text
party_text none fallback = fallback
party_text (some a) fallback = take 6 a ++ codes "..."

-- The queries of the page and the time of its rendering, in milliseconds.
pub record HomeState : Type 0 where
  pub btc_latest : Query Block
  pub eth_latest : Query Block
  pub pending_txs : Option (List Transaction)
  pub btc_txs : Option (List Transaction)
  pub eth_txs : Option (List Transaction)
  pub now : ℕ

module _ (js : Runtime) where
  -- `formatValue` of the page, which is written as the one of the address list
  abbrev home_value : Text → Chain → Text
  home_value = short_value js

  -- `TxItem`
  unfoldable pub tx_item : Chain → Transaction → Html
  tx_item chain tx = link (tx_path (chain_text chain) tx.tx_hash) (
      elem "div" (chain_icon chain)
      ⊕ elem "div" (
          elem "span" (text (ellipsis 10 6 tx.tx_hash))
          ⊕ when (text_eq tx.status (codes "finalized")) (elem "span" nothing)
          ⊕ elem "div" (
              text (party_text (present tx.from_addr) (codes "Coinbase"))
              ⊕ say " → "
              ⊕ text (party_text (present tx.to_addr) (codes "Contract"))))
      ⊕ elem "div" (text (home_value tx.value chain) ⊕ say " " ⊕ say (currency chain))
      ⊕ icon "ArrowUpRight")

  -- `PendingTxItem`
  unfoldable pub pending_tx_item : Transaction → Html
  pending_tx_item tx = link (tx_path (codes "eth") tx.tx_hash) (
      elem "div" nothing
      ⊕ elem "span" (text (ellipsis 12 8 tx.tx_hash))
      ⊕ elem "span" (text (home_value tx.value eth) ⊕ say " ETH"))

  -- `ethLag`, in seconds
  unfoldable pub eth_lag : ℕ → Option Block → ℕ
  eth_lag now none = 0
  eth_lag now (some b) = (now - js.get_time b.timestamp) / 1000

  abbrev pub whole : ℕ → Html
  whole n = animated_number js (codes "") (codes "") 0 (codes ",") (js.ratio n 1)

  abbrev pub lag_view : ℕ → Text → Html
  lag_view lag unit = if ltb lag 5 then say "Real-time" else text (show lag ++ unit)

  abbrev pub hero_height : Query Block → Html
  hero_height latest =
      if latest.is_loading then elem "div" nothing else whole (height_or_zero latest.data')

  abbrev pub hero_card : Chain → Text → Query Block → Html
  hero_card chain title latest =
      link (block_path (chain_text chain) (codes "latest"))
        (elem "div" (chain_icon chain) ⊕ elem "p" (text title) ⊕ hero_height latest)

  abbrev pub hero_section : HomeState → Html
  hero_section s = elem "section" (
      elem "div" (
        elem "span" (say "Indexing Live")
        ⊕ elem "span" (say "•")
        ⊕ elem "span" (lag_view (eth_lag s.now s.eth_latest.data') (codes "s lag")))
      ⊕ elem "h1" (elem "span" (say "Explore") ⊕ elem "span" (say "Every Block"))
      ⊕ elem "p" (
          say "Real-time insights into Bitcoin and Ethereum. "
          ⊕ elem "span" (say " Track transactions, analyze addresses, decode the blockchain."))
      ⊕ elem "div" (
          hero_card btc (codes "Bitcoin Block") s.btc_latest
          ⊕ hero_card eth (codes "Ethereum Block") s.eth_latest))

  abbrev pub live_stats : HomeState → Html
  live_stats s = elem "div" (
      elem "div" (icon "Zap" ⊕ say "TPS" ⊕ say "15.2")
      ⊕ elem "div" (
          icon "Activity"
          ⊕ say "Status"
          ⊕ say "Synced"
          ⊕ lag_view (eth_lag s.now s.eth_latest.data') (codes "s behind"))
      ⊕ elem "div"
          (icon "Layers" ⊕ say "Mempool" ⊕ whole (tx_count s.pending_txs) ⊕ say "pending txs")
      ⊕ elem "div" (icon "TrendingUp" ⊕ say "Gas" ⊕ say "12" ⊕ say "Gwei avg"))

  abbrev pub live_transactions : HomeState → Html
  live_transactions s = elem "div" (
      elem "h2" (icon "Hash" ⊕ say "Live Transactions")
      ⊕ elem "p" (say "Real-time activity across chains")
      ⊕ elem "span" (say "Auto-updating")
      ⊕ elem "div" (
          each (tx_item eth) (first_txs 4 s.eth_txs)
          ⊕ each (tx_item btc) (first_txs 2 s.btc_txs)
          ⊕ when (no_txs s.eth_txs && no_txs s.btc_txs)
              (elem "div" (icon "Activity" ⊕ elem "p" (say "Waiting for transactions..."))))
      ⊕ link (stats_path (codes "eth")) (say "View all transactions" ⊕ icon "ArrowRight"))

  abbrev pub block_text : Option Block → Html
  block_text none = elem "div" nothing
  block_text (some b) =
      elem "div" (say "#" ⊕ text (js.to_locale_string (js.ratio b.height 1)))
      ⊕ elem "div" (text (take 16 b.hash ++ codes "..."))
      ⊕ elem "div" (icon "Clock" ⊕ text (js.distance_to_now b.timestamp))

  abbrev pub block_card : Chain → Text → Option Block → Html
  block_card chain title latest =
      link (block_path (chain_text chain) (height_or_latest latest))
        (elem "div" (chain_icon chain ⊕ elem "span" (text title)) ⊕ block_text latest)

  abbrev pub pending_list : Option (List Transaction) → Html
  pending_list txs =
      if no_txs txs
      then elem "div" (icon "Layers" ⊕ say "No pending transactions")
      else elem "div" (each pending_tx_item (first_txs 8 txs))

  abbrev pub pending_view : HomeState → Html
  pending_view s = elem "div" (
      elem "h3" (say "Pending")
      ⊕ elem "span" (text (show (tx_count s.pending_txs)) ⊕ say " txs")
      ⊕ pending_list s.pending_txs)

  abbrev pub quick_links : Html
  quick_links = elem "div" (
      elem "h3" (say "Quick Access")
      ⊕ link (stats_path (codes "btc"))
          (icon "Bitcoin" ⊕ elem "span" (say "Bitcoin Stats") ⊕ icon "ArrowRight")
      ⊕ link (stats_path (codes "eth"))
          (icon "EthIcon" ⊕ elem "span" (say "Ethereum Stats") ⊕ icon "ArrowRight")
      ⊕ link (codes "/system")
          (icon "Activity" ⊕ elem "span" (say "System Health") ⊕ icon "ArrowRight"))

  -- `Home`
  unfoldable pub home_view : HomeState → Html
  unfolding tx_item pending_tx_item eth_lag
  home_view s = elem "div" (
      hero_section s
      ⊕ live_stats s
      ⊕ live_transactions s
      ⊕ block_card btc (codes "Latest BTC Block") s.btc_latest.data'
      ⊕ block_card eth (codes "Latest ETH Block") s.eth_latest.data'
      ⊕ pending_view s
      ⊕ quick_links)
