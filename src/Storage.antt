-- ===== src/Storage.antt =====
-- internal/storage/storage.go with pkg/types/types.go and the tables of storage/migrations: what the
-- indexer keeps in its database. The rows of all chains stand in the same tables. A row has the
-- columns that the code reads or writes, without those that the database fills in; the rows of a
-- table stand in the order of their insertion. The database server is a parameter.
pub mod Outcomes
pub mod Statistics
pub mod Writing
pub mod Tokens
pub mod EventWriting
pub mod Rollback
pub mod Finalization
pub mod Balances
pub mod Rows
pub mod Invariant
pub mod Duplicates
use btc_eth_indexer.Prelude.{
  ℕ, Bool, true, false, not, ◌&&◌, ◌==◌, List, [], ◌∷◌, filter, Option, none, some, Text, codes,
  text_eq, if◌then◌else◌, Try, ok, throw, ◌>>=◌, ℤ, pos, set_string, ◌≡◌, refl, ◌↔◌, arith,
}
use btc_eth_indexer.Types.{Chain, btc, eth, Block}

abbrev pub chain_eq : Chain → Chain → Bool
chain_eq btc btc = true
chain_eq btc eth = false
chain_eq eth btc = false
chain_eq eth eth = true

pub chain_eq_iff : (c d : Chain) → (chain_eq c d ≡ true) ↔ (c ≡ d)
chain_eq_iff btc btc = ground arith
chain_eq_iff btc eth = ground arith
chain_eq_iff eth btc = ground arith
chain_eq_iff eth eth = ground arith

pub chain_eq_same : (c : Chain) → chain_eq c c ≡ true
chain_eq_same btc = refl
chain_eq_same eth = refl

-- `StatusPending`, `StatusFinalized`, `StatusOrphaned`
abbrev pub pending : Text
pending = codes "pending"

abbrev pub finalized : Text
finalized = codes "finalized"

abbrev pub orphaned : Text
orphaned = codes "orphaned"

-- `types.Transaction`: a missing address or amount is the empty text
pub record Transaction : Type 0 where
  pub chain_id : Chain
  pub block_height : ℕ
  pub block_hash : Text
  pub tx_hash : Text
  pub tx_index : ℕ
  pub from_addr : Text
  pub to_addr : Text
  pub value : Text
  pub fee : Text
  pub gas_used : ℕ
  pub status : Text
  pub raw_data : Text

-- a row of `transactions`: there it is NULL
pub record TransactionRow : Type 0 where
  pub chain_id : Chain
  pub block_height : ℕ
  pub block_hash : Text
  pub tx_hash : Text
  pub tx_index : ℕ
  pub from_addr : Option Text
  pub to_addr : Option Text
  pub value : Option ℤ
  pub fee : Option ℤ
  pub gas_used : ℕ
  pub status : Text
  pub raw_data : Text

-- `types.Event`; its field `Data` is `decoded`
pub record Event : Type 0 where
  pub chain_id : Chain
  pub block_height : ℕ
  pub block_hash : Text
  pub tx_hash : Text
  pub log_index : ℕ
  pub contract_addr : Text
  pub event_name : Text
  pub topic0 : Text
  pub topics : List Text
  pub decoded : Text
  pub raw_data : Text
  pub status : Text
  pub decode_failed : Bool

-- `types.Contract`
pub record Contract : Type 0 where
  pub chain_id : Chain
  pub address : Text
  pub creator_addr : Text
  pub tx_hash : Text
  pub block_height : ℕ
  pub created_at : Text

-- `types.Token`
pub record Token : Type 0 where
  pub chain_id : Chain
  pub address : Text
  pub name : Text
  pub symbol : Text
  pub decimals : ℕ
  pub first_seen_height : ℕ
  pub last_seen_height : ℕ

-- `types.TokenTransfer`
pub record TokenTransfer : Type 0 where
  pub chain_id : Chain
  pub tx_hash : Text
  pub log_index : ℕ
  pub token_address : Text
  pub from_addr : Text
  pub to_addr : Text
  pub amount : Text
  pub block_height : ℕ
  pub block_hash : Text
  pub timestamp : Text

-- a row of `orphaned_blocks`
pub record OrphanedBlock : Type 0 where
  pub chain_id : Chain
  pub height : ℕ
  pub hash : Text
  pub parent_hash : Text
  pub original_data : Option Text

-- `types.Checkpoint`, without the time
pub record Checkpoint : Type 0 where
  pub last_height : ℕ
  pub last_hash : Text

-- a row of `address_stats`, without its key and the time
pub record StatsRow : Type 0 where
  pub balance : ℤ
  pub total_received : ℤ
  pub total_sent : ℤ
  pub tx_count : ℕ
  pub first_seen_height : ℕ
  pub last_seen_height : ℕ

-- The tables. A table whose primary key the code looks rows up by is a map from its key.
pub record Database : Type 0 where
  pub blocks : List Block
  pub transactions : List TransactionRow
  pub events : List Event
  pub contracts : List Contract
  pub tokens : List Token
  pub token_transfers : List TokenTransfer
  pub orphaned_blocks : List OrphanedBlock
  pub checkpoints : Chain → Option Checkpoint
  pub address_stats : Chain → Text → Option StatsRow
  pub token_balances : Chain → Text → Text → Option ℤ

-- the statements that the code sends
pub data Call : Type 0 where
  starting committing : Call
  preparing copying_blocks copying_transactions copying_events copying_contracts copying_transfers :
      Call
  inserting_tokens updating_balances updating_stats setting_checkpoint : Call
  reading_checkpoint reading_block reading_balance : Call
  archiving marking_transactions marking_events deleting resetting_checkpoint : Call
  finalizing_blocks finalizing_transactions finalizing_events : Call

-- The database server: whether a statement fails for a reason that is not in the tables, such as a
-- lost connection, and whether one of a finalization does, which comes behind a write; how it reads a text as a NUMERIC(78, 0); and whether the driver sends what is
-- left of a COPY when the statement is closed without a flush.
pub record Postgres : Type 0 where
  pub fails : Call → Bool
  pub fails_later : Call → Bool
  pub numeric : Text → Option ℤ
  pub flushes_on_close : Bool

-- the server as a finalization meets it
abbrev pub later : Postgres → Postgres
later pg = record pg { fails = pg.fails_later }

-- whether a method of the storage returns an error
pub data Result : Type 0 where
  done refused : Result

-- a statement within a transaction
abbrev pub statement : Postgres → Call → Try Database → Try Database
statement pg call o = if pg.fails call then throw else o

abbrev pub conclude : Postgres → Database → Try Database → Database × Result
conclude pg db throw = (db, refused)
conclude pg db (ok after) = if pg.fails committing then (db, refused) else (after, done)

-- `BeginTx`, the body, `Commit`; the deferred `Rollback` undoes a body that returns an error, and a
-- commit that fails has changed nothing
abbrev pub transact : Postgres → (Database → Try Database) → Database → Database × Result
transact pg body db = if pg.fails starting then (db, refused) else conclude pg db (body db)

-- `new(big.Int).SetString(s, 10)`, where what is no number is 0
abbrev pub amount_of : Option ℤ → ℤ
amount_of none = pos 0
amount_of (some n) = n

abbrev pub amount : Text → ℤ
amount s = amount_of (set_string s)

-- `INSERT ... ON CONFLICT (chain_id) DO UPDATE` on `checkpoints`
abbrev pub put_checkpoint :
    Chain → Checkpoint → (Chain → Option Checkpoint) → Chain → Option Checkpoint
put_checkpoint c cp old d = if chain_eq d c then some cp else old d

-- `GetCheckpoint`
abbrev pub get_checkpoint : Postgres → Chain → Database → Try (Option Checkpoint)
get_checkpoint pg c db = if pg.fails reading_checkpoint then throw else ok (db.checkpoints c)

-- `InitCheckpoint`
abbrev pub init_from : Chain → ℕ → Database → Option Checkpoint → Database
init_from c start db (some cp) = db
init_from c start db none = record db {
  checkpoints = put_checkpoint c (record { last_height = start; last_hash = [] }) db.checkpoints;
}

unfoldable pub init_checkpoint : Postgres → Chain → ℕ → Database → Database × Result
init_checkpoint pg c start db =
    if pg.fails setting_checkpoint
    then (db, refused)
    else (init_from c start db (db.checkpoints c), done)

-- `ORDER BY created_at DESC LIMIT 1`: the last row; rows of one write share their time, and which of
-- them is taken is open, but of one write at most one block has the height
abbrev pub last_row {ℓ} : {A : Type ℓ} → List A → Option A
last_row [] = none
last_row (x ∷ []) = some x
last_row (x ∷ y ∷ xs) = last_row (y ∷ xs)

abbrev pub is_block_at : Chain → ℕ → Block → Bool
is_block_at c h b = chain_eq b.chain_id c && b.height == h && not (text_eq b.status orphaned)

abbrev pub block_at : Chain → ℕ → List Block → Option Block
block_at c h bs = last_row (filter (is_block_at c h) bs)

-- `GetBlockByHeight`
unfoldable pub get_block_by_height : Postgres → Chain → ℕ → Database → Try (Option Block)
get_block_by_height pg c h db =
    if pg.fails reading_block then throw else ok (block_at c h db.blocks)
