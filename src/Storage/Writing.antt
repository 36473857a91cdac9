-- ===== src/Storage/Writing.antt =====
-- internal/storage/storage.go: `WriteBlocks`, and `GetAddressBalance`, which reads what it wrote.
use btc_eth_indexer.Prelude.{
  ℕ, ◌==◌, Bool, false, ◌&&◌, ◌||◌, not, List, [], ◌∷◌, ◌++◌, any, filter, is_empty, Option, none,
  some, Text, text_eq, if◌then◌else◌, Try, ok, throw, ◌>>=◌, ℤ, pos, ◌-ℤ◌, sum,
}
use btc_eth_indexer.Types.{Chain, Block}
use btc_eth_indexer.Storage.{
  chain_eq, orphaned, Transaction, TransactionRow, Database, copying_blocks, copying_transactions,
  updating_stats, setting_checkpoint, reading_balance, Postgres, Result, done, refused, statement,
  transact, amount_of, put_checkpoint,
}
use btc_eth_indexer.Storage.Statistics.{Diffs, aggregate, update_address_stats}

-- `blocks_chain_height_hash_unique`
abbrev pub same_block : Block → Block → Bool
same_block b d = chain_eq b.chain_id d.chain_id && b.height == d.height && text_eq b.hash d.hash

-- COPY into `blocks`, which fails at a row that violates the constraint
unfoldable pub copy_blocks : List Block → List Block → Try (List Block)
copy_blocks [] rows = ok rows
copy_blocks (b ∷ bs) rows =
    if any (same_block b) rows then throw else copy_blocks bs (rows ++ b ∷ [])

-- `if t.FromAddr != "" { fromAddr = t.FromAddr }`
abbrev pub nullable : Text → Option Text
nullable s = if is_empty s then none else some s

abbrev pub not_null : Option ℤ → Try (Option ℤ)
not_null none = throw
not_null (some n) = ok (some n)

-- `toNullableNumeric`, as the server reads the result
abbrev pub nullable_numeric : Postgres → Text → Try (Option ℤ)
nullable_numeric pg s = if is_empty s then ok none else not_null (pg.numeric s)

-- the row of a transaction, with its amounts
abbrev pub row_with : Transaction → Option ℤ → Option ℤ → TransactionRow
row_with t v f = record {
  chain_id = t.chain_id;
  block_height = t.block_height;
  block_hash = t.block_hash;
  tx_hash = t.tx_hash;
  tx_index = t.tx_index;
  from_addr = nullable t.from_addr;
  to_addr = nullable t.to_addr;
  value = v;
  fee = f;
  gas_used = t.gas_used;
  status = t.status;
  raw_data = t.raw_data;
}

abbrev pub row_of : Postgres → Transaction → Try TransactionRow
row_of pg t =
    nullable_numeric pg t.value >>= λ v. nullable_numeric pg t.fee >>= λ f. ok (row_with t v f)

-- `transactions_chain_txhash_unique`
abbrev pub same_tx : Transaction → TransactionRow → Bool
same_tx t r = chain_eq t.chain_id r.chain_id && text_eq t.tx_hash r.tx_hash

-- COPY into `transactions`
unfoldable pub copy_transactions :
    Postgres → List Transaction → List TransactionRow → Try (List TransactionRow)
copy_transactions pg [] rows = ok rows
copy_transactions pg (t ∷ ts) rows = row_of pg t >>= λ r.
    if any (same_tx t) rows then throw else copy_transactions pg ts (rows ++ r ∷ [])

abbrev pub with_blocks : Database → List Block → Database
with_blocks db rows = record db { blocks = rows }

abbrev pub with_transactions : Database → List TransactionRow → Database
with_transactions db rows = record db { transactions = rows }

abbrev pub with_stats : Chain → Diffs → Database → Database
with_stats c diffs db = record db { address_stats = update_address_stats c diffs db.address_stats }

abbrev pub with_checkpoint : Chain → ℕ → Text → Database → Database
with_checkpoint c h hash db = record db {
  checkpoints = put_checkpoint c (record { last_height = h; last_hash = hash }) db.checkpoints;
}

module _ (pg : Postgres) where
  abbrev pub put_blocks : List Block → Database → Try Database
  put_blocks bs db =
      statement pg copying_blocks (copy_blocks bs db.blocks >>= λ rows. ok (with_blocks db rows))

  abbrev pub put_transactions : List Transaction → Database → Try Database
  put_transactions ts db =
      statement pg copying_transactions
        (copy_transactions pg ts db.transactions >>= λ rows. ok (with_transactions db rows))

  module _ (c : Chain) where
    -- `if len(statsDiff) > 0 { s.updateAddressStats(...) }`
    abbrev pub put_diffs : Diffs → Database → Try Database
    put_diffs diffs db =
        if is_empty diffs then ok db else statement pg updating_stats (ok (with_stats c diffs db))

    -- `if len(txs) > 0`
    abbrev pub put_txs : List Transaction → Database → Try Database
    put_txs ts db =
        if is_empty ts then ok db else put_transactions ts db >>= λ d. put_diffs (aggregate ts []) d

    -- the checkpoint of the last block
    abbrev pub put_last : List Block → Database → Try Database
    put_last [] db = ok db
    put_last (b ∷ []) db =
        statement pg setting_checkpoint (ok (with_checkpoint c b.height b.hash db))
    put_last (b ∷ b2 ∷ bs) db = put_last (b2 ∷ bs) db

    -- the transaction of `WriteBlocks`
    abbrev pub write_body : List Block → List Transaction → Database → Try Database
    write_body bs ts db = put_blocks bs db >>= λ d. put_txs ts d >>= λ e. put_last bs e

    -- `WriteBlocks`
    unfoldable pub write_blocks : List Block → List Transaction → Database → Database × Result
    write_blocks bs ts db = if is_empty bs then (db, done) else transact pg (write_body bs ts) db

-- the rows that `GetAddressBalance` reads, and what each adds
abbrev pub is_address : Text → Option Text → Bool
is_address a none = false
is_address a (some b) = text_eq b a

module _ (c : Chain) (a : Text) where
  abbrev pub is_counted : TransactionRow → Bool
  is_counted r =
      chain_eq r.chain_id c
      && (is_address a r.from_addr || is_address a r.to_addr)
      && not (text_eq r.status orphaned)

  abbrev pub received : TransactionRow → ℤ
  received r = if is_address a r.to_addr then amount_of r.value else pos 0

  abbrev pub sent : TransactionRow → ℤ
  sent r = if is_address a r.from_addr then amount_of r.value else pos 0

  abbrev pub paid : TransactionRow → ℤ
  paid r = if is_address a r.from_addr then amount_of r.fee else pos 0

  -- the query of `GetAddressBalance`
  unfoldable pub address_balance : List TransactionRow → ℤ
  address_balance rows =
      let mine = filter is_counted rows in sum received mine -ℤ sum sent mine -ℤ sum paid mine

  -- `GetAddressBalance`, with the number that its text says
  unfoldable pub get_address_balance : Postgres → Database → ℤ × Result
  get_address_balance pg db =
      if pg.fails reading_balance then (pos 0, refused) else (address_balance db.transactions, done)
