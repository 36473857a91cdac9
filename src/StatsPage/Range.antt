-- ===== src/StatsPage/Range.antt =====
-- The range of blocks of the charts, and the server's answer for it.
use btc_eth_indexer.Prelude.{
  ℕ, ◌+◌, ◌-◌, ◌≤◌, Option, ltb, if◌then◌else◌, Try, ok, throw, ◌≡◌, arith,
}
use Prim.Native.Nat.{min}
use btc_eth_indexer.Types.{Block, NetworkStats}
use btc_eth_indexer.StatsPage.{latest_height, from_height}

-- the heights from and to which `GetBlocksRange` of internal/api/query/store.go selects
unfoldable pub selected_range : ℕ → ℕ → Try (ℕ × ℕ)
selected_range from to =
    if ltb to from
    then throw
    else if ltb 100 (to - from)
    then ok (from, from + 100)
    else ok (from, to)

-- The height that the charts end at is never 0.
pub latest_height_positive :
    (block : Option Block) (stats : Option NetworkStats) → 1 ≤ latest_height block stats
unfolding latest_height
latest_height_positive block stats = ground arith

-- Whatever height is loaded, the server accepts the range that the page asks for and does not cut
-- it; the range begins at 1 or above, and it holds 51 heights, or all of them if there are fewer.
pub selected_range-from_height :
    (block : Option Block) (stats : Option NetworkStats)
    → let latest = latest_height block stats in
      (selected_range (from_height latest) latest ≡ ok (from_height latest, latest))
      × (1 ≤ from_height latest)
      × (latest + 1 - from_height latest ≡ min 51 latest)
unfolding selected_range from_height
selected_range-from_height block stats =
    let positive = latest_height_positive block stats in (ground arith, ground arith, ground arith)
