-- ===== src/Storage/Statistics.antt =====
-- internal/storage/storage.go: the address statistics that a write collects and adds up. The map
-- from addresses is a list of its entries; a loop over it may take them in any order.
use btc_eth_indexer.Prelude.{
  ℕ, ◌+◌, List, [], ◌∷◌, is_empty, Option, none, some, Text, text_eq, ltb, ◌&&◌, if◌then◌else◌, ℤ,
  ◌+ℤ◌, ◌-ℤ◌,
}
use btc_eth_indexer.Types.{Chain}
use btc_eth_indexer.Storage.{chain_eq, Transaction, StatsRow, amount_of, amount}

-- `types.AddressStatsDiff`, where `none` is a nil pointer. A height is below 2 ^ 63.
pub record Diff : Type 0 where
  pub balance_delta : Option ℤ
  pub total_received : Option ℤ
  pub total_sent : Option ℤ
  pub tx_count : ℕ
  pub last_seen_height : ℕ

abbrev pub no_diff : Diff
no_diff = record {
  balance_delta = none;
  total_received = none;
  total_sent = none;
  tx_count = 0;
  last_seen_height = 0;
}

abbrev pub later : ℕ → ℕ → ℕ
later old h = if ltb old h then h else old

-- what a transaction adds to the entry of its sender
abbrev pub add_sender : Transaction → Diff → Diff
add_sender t d = record d {
  balance_delta = some (amount_of d.balance_delta -ℤ amount t.value -ℤ amount t.fee);
  total_sent = some (amount_of d.total_sent +ℤ amount t.value);
  tx_count = d.tx_count + 1;
  last_seen_height = later d.last_seen_height t.block_height;
}

-- and to the entry of its receiver
abbrev pub add_receiver : Transaction → Diff → Diff
add_receiver t d = record d {
  balance_delta = some (amount_of d.balance_delta +ℤ amount t.value);
  total_received = some (amount_of d.total_received +ℤ amount t.value);
  tx_count = d.tx_count + 1;
  last_seen_height = later d.last_seen_height t.block_height;
}

abbrev pub Diffs : Type 0
Diffs = List (Text × Diff)

-- `statsDiff[a]`, made when it is missing, and changed
unfoldable pub touch : Text → (Diff → Diff) → Diffs → Diffs
touch a f [] = (a, f no_diff) ∷ []
touch a f ((k, d) ∷ m) =
    let rest = touch a f m in if text_eq k a then (k, f d) ∷ m else (k, d) ∷ rest

abbrev pub touch_side : Text → (Diff → Diff) → Diffs → Diffs
touch_side a f m = if is_empty a then m else touch a f m

abbrev pub add_tx : Transaction → Diffs → Diffs
add_tx t m = touch_side t.to_addr (add_receiver t) (touch_side t.from_addr (add_sender t) m)

-- the loop of `WriteBlocks` that collects the statistics
unfoldable pub aggregate : List Transaction → Diffs → Diffs
unfolding touch
aggregate [] m = m
aggregate (t ∷ ts) m = aggregate ts (add_tx t m)

-- the upsert of a row
abbrev pub upsert_stats : Diff → Option StatsRow → StatsRow
upsert_stats d none = record {
  balance = amount_of d.balance_delta;
  total_received = amount_of d.total_received;
  total_sent = amount_of d.total_sent;
  tx_count = d.tx_count;
  first_seen_height = d.last_seen_height;
  last_seen_height = d.last_seen_height;
}
upsert_stats d (some r) = record r {
  balance = r.balance +ℤ amount_of d.balance_delta;
  total_received = r.total_received +ℤ amount_of d.total_received;
  total_sent = r.total_sent +ℤ amount_of d.total_sent;
  tx_count = r.tx_count + d.tx_count;
  last_seen_height = later r.last_seen_height d.last_seen_height;
}

abbrev pub Stats : Type 0
Stats = Chain → Text → Option StatsRow

abbrev pub put_stats : Chain → Text → Diff → Stats → Stats
put_stats c a d old k b =
    if chain_eq k c && text_eq a b then some (upsert_stats d (old k b)) else old k b

-- `updateAddressStats`
unfoldable pub update_address_stats : Chain → Diffs → Stats → Stats
update_address_stats c [] old = old
update_address_stats c ((a, d) ∷ m) old = update_address_stats c m (put_stats c a d old)
