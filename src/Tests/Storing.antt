-- ===== src/Tests/Storing.antt =====
-- Small databases, written to and rolled back.
use btc_eth_indexer.Prelude.{
  ℕ, false, true, List, [], ◌∷◌, none, some, Text, codes, ok, filter, sum, ltb, if◌then◌else◌, pos,
  ◌+ℤ◌, ◌-ℤ◌, set_string, read_digits, digit_value, is_digit, ◌≡◌, refl, ◌++◌,
}
use btc_eth_indexer.Types.{btc, Block}
use btc_eth_indexer.Storage.{
  pending, Transaction, Token, TokenTransfer, Database, Postgres, refused, amount_of,
  get_block_by_height,
}
use btc_eth_indexer.Storage.Writing.{row_with, address_balance, write_blocks}
use btc_eth_indexer.Storage.Balances.{balance_of, part}
use btc_eth_indexer.Storage.Rows.{IsSound, number}
use btc_eth_indexer.Storage.Invariant.{IsBalanced, write_blocks-IsBalanced}
use btc_eth_indexer.Storage.Tokens.{
  token_deltas, update_token_balances, brought, taken, is_entry, token_deltas-update_token_balances,
}
use btc_eth_indexer.Storage.EventWriting.{write_blocks_with_events}
use btc_eth_indexer.Storage.EventWriting.Books.{write_blocks_with_events-IsBalanced}
use btc_eth_indexer.Storage.EventWriting.Stuck.{write_blocks_with_events-duplicate}
use btc_eth_indexer.Storage.Rollback.{rollback}
use btc_eth_indexer.Storage.Rollback.Effects.{
  is_live, is_live_below, rollback-get_block_by_height, rollback-is_live,
}
use btc_eth_indexer.Storage.Rollback.Drift.{is_reverted, rollback-drift}
use btc_eth_indexer.Storage.Duplicates.{rollback-write_blocks}
use btc_eth_indexer.Storage.Finalization.{
  found_link, finalize_blocks, finalize_blocks-get_block_by_height,
}

-- a server without failures that reads decimal texts
abbrev pub server : Postgres
server = record {
  fails = λ call. false;
  fails_later = λ call. false;
  numeric = set_string;
  flushes_on_close = true;
}

abbrev pub empty : Database
empty = record {
  blocks = [];
  transactions = [];
  events = [];
  contracts = [];
  tokens = [];
  token_transfers = [];
  orphaned_blocks = [];
  checkpoints = λ c. none;
  address_stats = λ c a. none;
  token_balances = λ c a t. none;
}

abbrev pub some_block : ℕ → Text → Text → Block
some_block h hash parent = record {
  chain_id = btc;
  height = h;
  hash = hash;
  parent_hash = parent;
  timestamp = codes "2024-01-01T00:00:00Z";
  status = pending;
  raw_data = none;
}

-- 5 from a to b, with a fee of 1
abbrev payment : Transaction
payment = record {
  chain_id = btc;
  block_height = 2;
  block_hash = codes "two";
  tx_hash = codes "t";
  tx_index = 0;
  from_addr = codes "a";
  to_addr = codes "b";
  value = codes "5";
  fee = codes "1";
  gas_used = 0;
  status = pending;
  raw_data = [];
}

payment-IsSound : IsSound server btc payment
unfolding set_string read_digits digit_value is_digit
payment-IsSound = record {
  chain = refl;
  live = refl;
  value_read = number (codes "5") (pos 5) refl refl;
  fee_read = number (codes "1") (pos 1) refl refl;
}

empty-IsBalanced : IsBalanced btc empty
unfolding address_balance ◌-ℤ◌
empty-IsBalanced a = refl

abbrev two_blocks : List Block
two_blocks = some_block 1 (codes "one") [] ∷ some_block 2 (codes "two") (codes "one") ∷ []

-- two blocks, the second with the payment
abbrev paid_database : Database
paid_database = record empty {
  blocks = two_blocks;
  transactions = row_with payment (some (pos 5)) (some (pos 1)) ∷ [];
  checkpoints = λ c. some (record { last_height = 2; last_hash = codes "two" });
}

write_blocks-IsBalanced_example :
    IsBalanced btc (write_blocks server btc two_blocks (payment ∷ []) empty).0
write_blocks-IsBalanced_example =
    write_blocks-IsBalanced server btc two_blocks (payment ∷ []) empty (payment-IsSound, tt)
      empty-IsBalanced

abbrev transfer : TokenTransfer
transfer = record {
  chain_id = btc;
  tx_hash = codes "t";
  log_index = 0;
  token_address = codes "k";
  from_addr = codes "0x0000000000000000000000000000000000000000";
  to_addr = codes "b";
  amount = codes "7";
  block_height = 2;
  block_hash = codes "two";
  timestamp = [];
}

write_blocks_with_events-IsBalanced_example :
    IsBalanced btc
      (write_blocks_with_events server btc two_blocks
        (payment ∷ [])
        []
        []
        []
        (transfer ∷ [])
        empty).0
write_blocks_with_events-IsBalanced_example =
    write_blocks_with_events-IsBalanced server btc two_blocks (payment ∷ []) [] [] []
      (transfer ∷ []) empty (payment-IsSound, tt) empty-IsBalanced

-- a mint of 7
token_deltas-update_token_balances_example :
    amount_of (
      update_token_balances btc
        (token_deltas (transfer ∷ []) [])
        empty.token_balances
        btc
        (codes "b")
        (codes "k"))
    ≡ amount_of (empty.token_balances btc (codes "b") (codes "k"))
      +ℤ (sum (brought (is_entry btc (codes "b") (codes "k"))) (transfer ∷ [])
          -ℤ sum (taken (is_entry btc (codes "b") (codes "k"))) (transfer ∷ []))
token_deltas-update_token_balances_example =
    token_deltas-update_token_balances btc (codes "b") (codes "k") (transfer ∷ [])
      empty.token_balances

minted :
    amount_of (
      update_token_balances btc
        (token_deltas (transfer ∷ []) [])
        empty.token_balances
        btc
        (codes "b")
        (codes "k"))
    ≡ pos 7
unfolding update_token_balances token_deltas set_string read_digits digit_value is_digit ◌+ℤ◌
minted = refl

rollback-get_block_by_height_example :
    get_block_by_height server btc 2 (rollback btc 1 (codes "one") server paid_database).0
    ≡ (if ltb 1 2 then ok none else get_block_by_height server btc 2 paid_database)
unfolding rollback
rollback-get_block_by_height_example =
    rollback-get_block_by_height server btc 1 (codes "one") 2 paid_database refl refl

rollback-is_live_example :
    filter (is_live btc) (rollback btc 1 (codes "one") server paid_database).0.transactions
    ≡ filter (is_live_below btc 1) paid_database.transactions
unfolding rollback
rollback-is_live_example = rollback-is_live server btc 1 (codes "one") paid_database refl

abbrev written : Database
written = (write_blocks server btc two_blocks (payment ∷ []) empty).0

rollback-drift_example :
    balance_of ((rollback btc 1 (codes "one") server written).0.address_stats btc (codes "b"))
    ≡ address_balance btc (codes "b") (rollback btc 1 (codes "one") server written).0.transactions
      +ℤ sum (part btc (codes "b")) (filter (is_reverted btc 1) written.transactions)
unfolding rollback
rollback-drift_example =
    rollback-drift btc 1 (codes "b") server (codes "one") written
      (write_blocks-IsBalanced server btc two_blocks (payment ∷ []) empty (payment-IsSound, tt)
        empty-IsBalanced)
      refl

rollback-write_blocks_example :
    write_blocks server btc
      (some_block 2 (codes "other") (codes "one") ∷ [])
      ([] ++ payment ∷ [])
      (rollback btc 1 (codes "one") server paid_database).0
    ≡ ((rollback btc 1 (codes "one") server paid_database).0, refused)
rollback-write_blocks_example =
    rollback-write_blocks server btc 1 (codes "one") (some_block 2 (codes "other") (codes "one")) []
      [] payment [] paid_database refl

abbrev token : Token
token = record {
  chain_id = btc;
  address = codes "k";
  name = codes "K";
  symbol = codes "K";
  decimals = 18;
  first_seen_height = 1;
  last_seen_height = 1;
}

abbrev known_token : Database
known_token = record paid_database { tokens = token ∷ [] }

write_blocks_with_events-duplicate_example :
    write_blocks_with_events server btc
      (some_block 3 (codes "three") (codes "two") ∷ [])
      []
      []
      []
      ([] ++ token ∷ [])
      []
      known_token
    ≡ (known_token, refused)
write_blocks_with_events-duplicate_example =
    write_blocks_with_events-duplicate server refl btc (some_block 3 (codes "three") (codes "two"))
      [] [] [] [] [] token [] [] known_token refl

finalize_blocks-get_block_by_height_example :
    found_link (get_block_by_height server btc 1 (finalize_blocks server btc 1 paid_database).0)
    ≡ found_link (get_block_by_height server btc 1 paid_database)
finalize_blocks-get_block_by_height_example =
    finalize_blocks-get_block_by_height server btc 1 1 paid_database
