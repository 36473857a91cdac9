-- ===== src/Tests/Views.antt =====
-- The views of the other pages.
use btc_eth_indexer.Prelude.{
  ℕ, ◌+◌, ◌-◌, ◌/◌, ◌%◌, ◌≤◌, true, false, [], ◌∷◌, ◌++◌, none, some, Text, codes, length, Try, ok,
  throw, ◌≡◌, arith,
}
use Prim.Native.Nat.{min}
use btc_eth_indexer.Types.{btc, eth, Block, AddressStats, Contract}
use btc_eth_indexer.Query.{Query, answered}
use btc_eth_indexer.AddressList.{out_txs}
use btc_eth_indexer.AddressPage.{AddressState}
use btc_eth_indexer.StatsPage.{latest_height, from_height}
use btc_eth_indexer.StatsPage.Range.{selected_range, selected_range-from_height}
use btc_eth_indexer.Shared.InputData.{hex_of, bytes_of, hex_of_round_trip}
use btc_eth_indexer.Landing.RecentBlocks.{all_blocks, tagged, block_time}
use btc_eth_indexer.Landing.Newest.{IsNewest, all_blocks-IsNewest}
use btc_eth_indexer.Landing.Home.{HomeState}
use btc_eth_indexer.Tests.Samples.{whole_numbers, payments, block_seven}

abbrev creation : Contract
creation = record {
  chain_id = eth;
  address = codes "0xab";
  creator_addr = codes "0xcd";
  tx_hash = codes "0xee";
  block_height = 7;
  created_at = codes "2024-01-01T00:00:00Z";
}

abbrev loading {ℓ} : (A : Type ℓ) → Query A
loading A = record { data' = none; is_loading = true; is_error = false; error_message = none }

abbrev open_page : AddressState
open_page = record {
  copied = false;
  show_qr = true;
  direction = out_txs;
  contract = some creation;
  stats = loading AddressStats;
  tokens = answered [];
  txs = answered (record { transactions = payments; cursor = none });
}

abbrev no_units : Text → ℕ → Try Text
no_units s n = throw

selected_range-from_height_example :
    let latest = latest_height (some block_seven) none in
    (selected_range (from_height latest) latest ≡ ok (from_height latest, latest))
    × (1 ≤ from_height latest)
    × (latest + 1 - from_height latest ≡ min 51 latest)
selected_range-from_height_example = selected_range-from_height (some block_seven) none

hex_of_round_trip_example :
    (bytes_of (hex_of (10 ∷ 255 ∷ [])) ≡ 10 ∷ 255 ∷ [])
    × (length (hex_of (10 ∷ 255 ∷ [])) / 2 ≡ 2)
    × (length (hex_of (10 ∷ 255 ∷ [])) % 2 ≡ 0)
hex_of_round_trip_example = hex_of_round_trip (10 ∷ 255 ∷ []) (omega arith)

abbrev older : Block
older = record block_seven { height = 6; timestamp = codes "2023" }

all_blocks-IsNewest_example :
    IsNewest
      (block_time whole_numbers)
      8
      (all_blocks whole_numbers (older ∷ []) (block_seven ∷ []))
      (tagged whole_numbers btc (older ∷ []) ++ tagged whole_numbers eth (block_seven ∷ []))
all_blocks-IsNewest_example = all_blocks-IsNewest whole_numbers (older ∷ []) (block_seven ∷ [])

abbrev home_state : HomeState
home_state = record {
  btc_latest = loading Block;
  eth_latest = answered block_seven;
  pending_txs = none;
  btc_txs = some [];
  eth_txs = some payments;
  now = 100000;
}
