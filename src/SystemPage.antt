-- ===== src/SystemPage.antt =====
-- web/src/app/system/page.tsx with web/src/features/system/components, and health-indicator.tsx of
-- web/src/features/landing/components, which no page renders. The page asks for the latest blocks
-- of both chains and shows neither them nor whether the requests fail.
use btc_eth_indexer.Prelude.{ℕ, Bool, not, List, [], ◌∷◌, Option, none, some, String, if◌then◌else◌}
use btc_eth_indexer.Types.{Block}
use btc_eth_indexer.Html.{Html, icon, elem, ◌⊕◌, say, when}
use btc_eth_indexer.Query.{Query}

-- a row of `mockData`
pub record BlockCount : Type 0 where
  pub time : String
  pub btc : ℕ
  pub eth : ℕ

-- `mockData` of the chart of blocks
abbrev mock_data : List BlockCount
mock_data =
    record { time = "10:00"; btc = 4; eth = 25 }
    ∷ record { time = "10:05"; btc = 3; eth = 22 }
    ∷ record { time = "10:10"; btc = 5; eth = 28 }
    ∷ record { time = "10:15"; btc = 2; eth = 20 }
    ∷ record { time = "10:20"; btc = 6; eth = 30 }
    ∷ record { time = "10:25"; btc = 4; eth = 24 }
    ∷ record { time = "10:30"; btc = 5; eth = 26 }
    ∷ []

-- a row of `data`
pub record Latency : Type 0 where
  pub time : String
  pub latency : ℕ

-- `data` of the chart of latencies
abbrev data' : List Latency
data' =
    record { time = "0s"; latency = 45 }
    ∷ record { time = "5s"; latency = 42 }
    ∷ record { time = "10s"; latency = 48 }
    ∷ record { time = "15s"; latency = 40 }
    ∷ record { time = "20s"; latency = 55 }
    ∷ record { time = "25s"; latency = 38 }
    ∷ record { time = "30s"; latency = 42 }
    ∷ record { time = "35s"; latency = 44 }
    ∷ record { time = "40s"; latency = 41 }
    ∷ record { time = "45s"; latency = 39 }
    ∷ record { time = "50s"; latency = 43 }
    ∷ record { time = "55s"; latency = 40 }
    ∷ []

-- The charts of recharts, which draw their rows.
module _ (bar_chart : List BlockCount → Html) (area_chart : List Latency → Html) where
  -- `BlocksChart`, which reads none of its arguments
  abbrev blocks_chart : List Block → List Block → Html
  blocks_chart btc_blocks eth_blocks = elem "Card" (
      elem "CardHeader" (elem "CardTitle" (say "Block Production (Last 30m)"))
      ⊕ elem "CardContent" (bar_chart mock_data))

  -- `LatencyChart`
  abbrev latency_chart : Html
  latency_chart = elem "Card" (
      elem "CardHeader" (elem "CardTitle" (say "API Latency (ms)"))
      ⊕ elem "CardContent" (area_chart data'))

  abbrev system_card : String → String → String → String → Html
  system_card title sign value note = elem "Card" (
      elem "CardHeader" (elem "CardTitle" (say title) ⊕ icon sign)
      ⊕ elem "CardContent" (elem "div" (say value) ⊕ elem "p" (say note)))

  -- `btcLatest ? [btcLatest] : []`
  abbrev as_list : Option Block → List Block
  as_list none = []
  as_list (some b) = b ∷ []

  -- `SystemHealthPage`
  unfoldable system_health_page : Query Block → Query Block → Html
  system_health_page btc_latest eth_latest = elem "div" (
      elem "div" (
        elem "h2" (say "System Status")
        ⊕ elem "div" (elem "Badge" (icon "Zap" ⊕ say "All Systems Operational")))
      ⊕ elem "div" (
          system_card "API Status" "Activity" "Online" "Uptime: 99.9%"
          ⊕ system_card "Database" "Database" "Connected" "PostgreSQL & Redis"
          ⊕ system_card "Indexer Lag" "Server" "~2s" "Real-time ingestion"
          ⊕ system_card "Cache Status" "Zap" "Active" "Redis Connection Healthy")
      ⊕ elem "div" (
          elem "div" (blocks_chart (as_list btc_latest.data') (as_list eth_latest.data'))
          ⊕ elem "div" latency_chart))

-- `HealthIndicator`; the answer itself is not looked at
unfoldable health_indicator {ℓ} : {A : Type ℓ} → Bool → Query A → Html
health_indicator compact q =
    if q.is_loading
    then elem "Badge" (icon "Activity" ⊕ when (not compact) (say "Checking..."))
    else if q.is_error
    then elem "Badge" (icon "AlertCircle" ⊕ when (not compact) (say "System Offline"))
    else elem "Badge" (icon "CheckCircle2" ⊕ when (not compact) (say "System Operational"))
