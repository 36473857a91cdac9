-- ===== src/StatsPage.antt =====
-- web/src/app/stats/[chain]/page.tsx: the statistics of a chain.
pub mod Range
use btc_eth_indexer.Prelude.{
  ℕ, zero, suc, ◌-◌, Bool, true, false, not, List, [], ◌∷◌, ◌++◌, Option, none, some, Text, codes,
  show, map, length, ltb, leb, is_empty, ◌==◌, if◌then◌else◌, String,
}
use btc_eth_indexer.Types.{Chain, btc, eth, chain_text, is_btc, Block, BlockSummary, NetworkStats}
use btc_eth_indexer.Runtime.{Runtime}
use btc_eth_indexer.Html.{Html, nothing, text, icon, elem, ◌⊕◌, say, each}
use btc_eth_indexer.Query.{Query}
use btc_eth_indexer.Pages.{chain_of_param}
use btc_eth_indexer.Shared.Badges.{chain_badge}

abbrev pub height_of : Option Block → ℕ
height_of none = 0
height_of (some b) = b.height

-- a field of `stats`, and 0 for one that is missing
abbrev pub stat : (NetworkStats → ℕ) → Option NetworkStats → ℕ
stat field none = 0
stat field (some s) = field s

abbrev or_number : ℕ → ℕ → ℕ
or_number zero n = n
or_number (suc m) n = suc m

-- `latestHeight`
unfoldable pub latest_height : Option Block → Option NetworkStats → ℕ
latest_height block stats =
    or_number (height_of block) (or_number (stat (λ s. s.latest_height) stats) 100)

-- `Math.max(1, latestHeight - 50)`
unfoldable pub from_height : ℕ → ℕ
from_height latest = if leb (latest - 50) 1 then 1 else latest - 50

-- `lagStatus`
abbrev pub is_lagging : Option NetworkStats → Bool
is_lagging stats = ltb 30 (stat (λ s. s.indexer_lag_seconds) stats)

-- One point of `chartData`.
pub record ChartPoint : Type 0 where
  pub height : ℕ
  pub txs : ℕ
  pub time : Text

-- `chartData`
unfoldable pub chart_data : Runtime → Option (List BlockSummary) → List ChartPoint
chart_data js none = []
chart_data js (some blocks) =
    map (λ b. record { height = b.height; txs = b.tx_count; time = js.time_text b.timestamp })
      blocks

-- `StatsPageSkeleton`
unfoldable pub stats_skeleton : Html
stats_skeleton = elem "div" (
    elem "div" (icon "Skeleton" ⊕ icon "Skeleton")
    ⊕ elem "div" (each {A = ℕ} (λ i. icon "Skeleton") (1 ∷ 2 ∷ 3 ∷ 4 ∷ []))
    ⊕ icon "Skeleton")

module _ (js : Runtime) where
  abbrev local : ℕ → Text
  local n = js.to_locale_string (js.ratio n 1)

  -- `stats?.LatestHeight?.toLocaleString() || "---"`
  abbrev pub local_or : Text → (NetworkStats → ℕ) → Option NetworkStats → Text
  local_or fallback field none = fallback
  local_or fallback field (some s) =
      if is_empty (local (field s)) then fallback else local (field s)

  abbrev pub average_text : Option NetworkStats → Text
  average_text none = codes "---"
  average_text (some s) =
      if is_empty (js.to_fixed 1 (js.to_number s.avg_block_time))
      then codes "---"
      else js.to_fixed 1 (js.to_number s.avg_block_time)

  abbrev card : Text → String → Html → Text → Html
  card title sign value note = elem "Card" (
      elem "CardHeader" (elem "CardTitle" (text title) ⊕ icon sign)
      ⊕ elem "CardContent" (elem "div" value ⊕ elem "p" (text note)))

  abbrev chart : List ChartPoint → Html → Html
  chart points waiting = if ltb 0 (length points) then icon "AreaChart" else elem "div" waiting

  -- the view of the statistics that are loaded
  unfoldable pub stats_view : Chain → Option NetworkStats → List ChartPoint → Html
  stats_view chain stats points = elem "div" (
      elem "div" (
        elem "h1" (say "Network Statistics" ⊕ chain_badge (chain_text chain))
        ⊕ elem "p" (
            say "Real-time performance metrics for the "
            ⊕ (if is_btc chain then say "Bitcoin" else say "Ethereum")
            ⊕ say " indexer."))
      ⊕ elem "div" (
          card (codes "Latest Height") "Blocks"
            (text (local_or (codes "---") (λ s. s.latest_height) stats)) (codes "Indexed blocks")
          ⊕ card (codes "Blocks/Min") "Activity"
              (text (show (stat (λ s. s.blocks_last_minute) stats))) (codes "Last 60 seconds")
          ⊕ card (codes "Txs/Min") "TrendingUp"
              (text (local_or (codes "0") (λ s. s.txs_last_minute) stats))
              (codes "Transaction throughput")
          ⊕ card (codes "Indexer Lag") "Clock"
              (text (show (stat (λ s. s.indexer_lag_seconds) stats)) ⊕ say "s")
              (codes "Behind network"))
      ⊕ elem "Card" (
          elem "CardTitle" (icon "BarChart3" ⊕ say "Transactions per Block")
          ⊕ elem "span" (say "Last 50 blocks")
          ⊕ chart points (icon "Loader2" ⊕ say "Loading chart data..."))
      ⊕ elem "Card" (elem "CardTitle" (say "Block History") ⊕ chart points (say "Loading..."))
      ⊕ elem "Card" (
          elem "CardTitle" (icon "Gauge" ⊕ say "Indexer Performance")
          ⊕ elem "div" (text (average_text stats) ⊕ say "s" ⊕ say "Avg Block Time")
          ⊕ elem "div" (text (show (stat (λ s. s.blocks_last_minute) stats)) ⊕ say "Blocks/min")
          ⊕ elem "div" (text (show (stat (λ s. s.txs_last_minute) stats)) ⊕ say "Txs/min")))

  -- `StatsPage` for the chain of its address
  unfoldable pub stats_page : Text → Query NetworkStats → Option (List BlockSummary) → Html
  unfolding stats_view chart_data stats_skeleton
  stats_page chain q block_range =
      if q.is_loading
      then stats_skeleton
      else stats_view (chain_of_param chain) q.data' (chart_data js block_range)
