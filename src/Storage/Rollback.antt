-- ===== src/Storage/Rollback.antt =====
-- internal/storage/storage.go: `Rollback`.
pub mod Effects
pub mod Drift
use btc_eth_indexer.Prelude.{
  ℕ, Bool, not, ◌&&◌, ltb, List, ◌++◌, map, filter, Option, none, some, Text, text_eq,
  if◌then◌else◌, Try, ok, ◌>>=◌,
}
use btc_eth_indexer.Types.{Chain, Block}
use btc_eth_indexer.Storage.{
  chain_eq, orphaned, TransactionRow, Event, OrphanedBlock, Checkpoint, Database, archiving,
  marking_transactions, marking_events, deleting, resetting_checkpoint, Postgres, Result, statement,
  transact,
}

module _ (c : Chain) (h : ℕ) where
  -- `chain_id = $1 AND height > $2`
  abbrev pub is_above : Chain → ℕ → Bool
  is_above d k = chain_eq d c && ltb h k

  -- `... AND status != 'orphaned'`
  abbrev pub is_undone : Chain → ℕ → Text → Bool
  is_undone d k status = is_above d k && not (text_eq status orphaned)

  abbrev archived : Block → OrphanedBlock
  archived b = record {
    chain_id = b.chain_id;
    height = b.height;
    hash = b.hash;
    parent_hash = b.parent_hash;
    original_data = b.raw_data;
  }

  abbrev pub undo_transaction : TransactionRow → TransactionRow
  undo_transaction r = record r {
    status = if is_undone r.chain_id r.block_height r.status then orphaned else r.status;
  }

  abbrev pub undo_event : Event → Event
  undo_event e = record e {
    status = if is_undone e.chain_id e.block_height e.status then orphaned else e.status;
  }

  -- the INSERT, the UPDATEs, the DELETE and the UPDATE of the transaction
  abbrev pub archive : Database → Database
  archive db =
      let gone = filter (λ b. is_undone b.chain_id b.height b.status) db.blocks in
      record db { orphaned_blocks = db.orphaned_blocks ++ map archived gone }

  abbrev pub undo_transactions : Database → Database
  undo_transactions db = record db { transactions = map undo_transaction db.transactions }

  abbrev pub undo_events : Database → Database
  undo_events db = record db { events = map undo_event db.events }

  abbrev pub is_kept : Block → Bool
  is_kept b = not (is_above b.chain_id b.height)

  abbrev pub delete : Database → Database
  delete db = record db { blocks = filter is_kept db.blocks }

  module _ (hash : Text) where
    abbrev pub moved : Option Checkpoint → Option Checkpoint
    moved none = none
    moved (some cp) = some (record { last_height = h; last_hash = hash })

    abbrev pub reset : Database → Database
    reset db = record db {
      checkpoints = λ d. if chain_eq d c then moved (db.checkpoints d) else db.checkpoints d;
    }

    abbrev pub rolled_back : Database → Database
    rolled_back db = reset (delete (undo_events (undo_transactions (archive db))))

    abbrev pub rollback_body : Postgres → Database → Try Database
    rollback_body pg db = statement pg archiving (ok (archive db)) >>= λ db1.
        statement pg marking_transactions (ok (undo_transactions db1)) >>= λ db2.
        statement pg marking_events (ok (undo_events db2)) >>= λ db3.
        statement pg deleting (ok (delete db3)) >>= λ db4.
        statement pg resetting_checkpoint (ok (reset db4))

    -- `Rollback`
    unfoldable pub rollback : Postgres → Database → Database × Result
    rollback pg db = transact pg (rollback_body pg) db
