-- ===== src/Types.antt =====
-- web/src/types/index.ts: the records that the API returns. An optional or nullable field is an
-- `Option`; a number is a natural number, and a timestamp is its text.
use btc_eth_indexer.Prelude.{ℕ, Bool, Option, List, Text, codes, true, false}

-- ChainID
pub data Chain : Type 0 where
  btc eth : Chain

abbrev pub chain_text : Chain → Text
chain_text btc = codes "btc"
chain_text eth = codes "eth"

abbrev pub is_btc : Chain → Bool
is_btc btc = true
is_btc eth = false

-- `chain.toUpperCase()`
abbrev pub chain_upper : Chain → Text
chain_upper btc = codes "BTC"
chain_upper eth = codes "ETH"

pub record Block : Type 0 where
  pub chain_id : Chain
  pub height : ℕ
  pub hash : Text
  pub parent_hash : Text
  pub timestamp : Text
  pub status : Text
  pub raw_data : Option Text

pub record Transaction : Type 0 where
  pub chain_id : Chain
  pub block_height : ℕ
  pub block_hash : Text
  pub tx_hash : Text
  pub tx_index : Option ℕ
  pub from_addr : Option Text
  pub to_addr : Option Text
  pub value : Text
  pub fee : Text
  pub gas_used : Option ℕ
  pub status : Text
  pub raw_data : Option Text

-- what `getBlockTxs` returns, as far as the page reads it
pub record BlockTxs : Type 0 where
  pub transactions : List Transaction
  pub next_cursor : Option Text

-- the body of `getAddressTxs`
pub record TxResponse : Type 0 where
  pub transactions : List Transaction
  pub cursor : Option Text

pub record NetworkStats : Type 0 where
  pub chain_id : Chain
  pub latest_height : ℕ
  pub blocks_last_minute : ℕ
  pub txs_last_minute : ℕ
  -- the text of a double
  pub avg_block_time : Text
  pub indexer_lag_seconds : ℕ

pub record BlockSummary : Type 0 where
  pub height : ℕ
  pub timestamp : Text
  pub tx_count : ℕ
  pub status : Text

pub record Contract : Type 0 where
  pub chain_id : Chain
  pub address : Text
  pub creator_addr : Text
  pub tx_hash : Text
  pub block_height : ℕ
  pub created_at : Text

pub record AddressStats : Type 0 where
  pub chain_id : Chain
  pub address : Text
  pub balance : Text
  pub total_received : Text
  pub total_sent : Text
  pub tx_count : ℕ
  pub first_seen_height : ℕ
  pub last_seen_height : ℕ
  pub last_updated_at : Text
