-- ===== src/Landing/Cards.antt =====
-- web/src/features/landing/components: network-card.tsx, live-pulse-section.tsx and
-- stats-ticker.tsx, which no page renders.
use btc_eth_indexer.Prelude.{
  ℕ, ◌+◌, ◌-◌, ◌/◌, List, [], ◌∷◌, ◌++◌, Option, none, some, Text, codes, show, String, ltb,
  is_empty, if◌then◌else◌,
}
use btc_eth_indexer.Types.{Chain, btc, eth, chain_text, Block}
use btc_eth_indexer.Runtime.{Runtime}
use btc_eth_indexer.Html.{Html, nothing, text, icon, elem, link, ◌⊕◌, say, each}
use btc_eth_indexer.Pages.{stats_path}
use btc_eth_indexer.AnimatedNumber.{animated_number}

module _ (js : Runtime) where
  open js use {Num, ratio, to_fixed, to_locale_string}

  -- the text of the badge of an indexer that lags
  unfoldable pub lag_text : ℕ → Text
  lag_text lag =
      if ltb 3600 lag
      then to_fixed 1 (ratio lag 3600) ++ codes "h lag"
      else if ltb 60 lag
      then show (lag / 60) ++ codes "m lag"
      else show lag ++ codes "s lag"

  abbrev network_name : Chain → Html
  network_name btc = say "Bitcoin Network"
  network_name eth = say "Ethereum Network"

  -- `NetworkCard`; the counter shows the number that its animation has come to
  unfoldable pub network_card : Chain → ℕ → Num → Num → ℕ → Html
  unfolding lag_text
  network_card chain displayed blocks_per_min txs_per_min lag =
      link (stats_path (chain_text chain)) (
        elem "Card" (
          elem "CardHeader" (
            elem "Badge" (network_name chain)
            ⊕ elem "CardTitle"
                (elem "span" (say "#") ⊕ elem "span" (text (to_locale_string (ratio displayed 1))))
            ⊕ elem "div" (say "Latest Indexed Block")
            ⊕ elem "div" (icon "ArrowUpRight")
            ⊕ (if ltb lag 30
                then elem "div" (elem "span" nothing ⊕ say "Synced")
                else elem "Badge" (text (lag_text lag))))
          ⊕ elem "CardContent" (
              elem "div"
                (icon "Box" ⊕ elem "span" (say "Blocks/min") ⊕ text (to_fixed 2 blocks_per_min))
              ⊕ elem "div" (
                  elem "span" (say "Txs/min")
                  ⊕ icon "TrendingUp"
                  ⊕ text (to_locale_string txs_per_min)))))

  abbrev shown : ℕ → Num → Html
  shown decimals n = animated_number js (codes "") (codes "") decimals (codes ",") n

  -- `syncStatus`
  pub data SyncStatus : Type 0 where
    synced syncing error : SyncStatus

  -- `statusText`
  abbrev status_text : SyncStatus → Html
  status_text synced = say "Synced"
  status_text syncing = say "Syncing..."
  status_text error = say "Error"

  abbrev bars : List ℕ → Html
  bars heights = elem "div" (each (λ h. elem "div" nothing) heights)

  abbrev pulse_card : String → String → Html → Html
  pulse_card title sign content =
      elem "GlassCard" (elem "p" (say title) ⊕ content ⊕ elem "div" (icon sign))

  -- `LivePulseSection`; an argument that is not given has the default that the caller of the view
  -- then passes: 15.2, 12, 847, synced and 0
  unfoldable pub live_pulse_section : Num → Num → Num → SyncStatus → ℕ → Html
  live_pulse_section eth_tps gas_price mempool_count status lag = elem "section" (
      elem "h2" (say "Live Network Pulse")
      ⊕ pulse_card "TPS" "Zap" (
          elem "div" (shown 1 eth_tps)
          ⊕ bars (40 ∷ 60 ∷ 35 ∷ 80 ∷ 55 ∷ 90 ∷ 45 ∷ 70 ∷ 85 ∷ 50 ∷ []))
      ⊕ pulse_card "Gas Price" "Gauge" (
          elem "div" (shown 0 gas_price ⊕ elem "span" (say "Gwei"))
          ⊕ bars (20 ∷ 30 ∷ 45 ∷ 35 ∷ 50 ∷ 40 ∷ 55 ∷ 45 ∷ 60 ∷ 50 ∷ []))
      ⊕ pulse_card "Mempool" "Layers"
          (elem "div" (shown 0 mempool_count) ⊕ elem "p" (say "pending txs"))
      ⊕ pulse_card "Indexer" "Activity" (
          elem "div" (elem "div" nothing ⊕ elem "span" (status_text status))
          ⊕ (if ltb 0 lag
              then elem "p" (text (show lag) ⊕ say "s behind")
              else elem "p" (say "Real-time"))))

  -- `block?.Height.toLocaleString() || "---"`
  abbrev height_of : Option Block → Text
  height_of none = codes "---"
  height_of (some b) =
      let s = to_locale_string (ratio b.height 1) in if is_empty s then codes "---" else s

  abbrev height_or_zero : Option Block → ℕ
  height_or_zero none = 0
  height_or_zero (some b) = b.height

  -- the lag in seconds; a time ahead of the clock, and no time at all, give 0
  unfoldable pub chain_lag : ℕ → Option Block → ℕ
  chain_lag now none = 0
  chain_lag now (some b) =
      if is_empty b.timestamp then 0 else (now - js.get_time b.timestamp) / 1000

  abbrev ticker_card : String → String → Html → Html
  ticker_card title sign value =
      elem "Card" (elem "CardTitle" (say title) ⊕ icon sign ⊕ elem "div" value)

  -- `StatsTicker`, at a time
  unfoldable pub stats_ticker : ℕ → Option Block → Option Block → Html
  unfolding chain_lag
  stats_ticker now btc_block eth_block = elem "div" (
      ticker_card "BTC Height" "Layers" (text (height_of btc_block))
      ⊕ ticker_card "ETH Height" "Database" (text (height_of eth_block))
      ⊕ ticker_card "Chain Lag" "Clock" (text (show (chain_lag now btc_block)) ⊕ say "s")
      ⊕ ticker_card "Indexed Blocks" "Blocks"
          (text (to_locale_string (ratio (height_or_zero btc_block + height_or_zero eth_block) 1))))
