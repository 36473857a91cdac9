-- ===== src/Storage/EventWriting.antt =====
-- internal/storage/storage.go: `WriteBlocksWithEvents`.
pub mod Books
pub mod Stuck
use btc_eth_indexer.Prelude.{
  ◌==◌, Bool, true, false, ◌&&◌, List, [], ◌∷◌, ◌++◌, any, is_empty, Option, none, some, Text,
  text_eq, if◌then◌else◌, Try, ok, throw, ◌>>=◌, ℤ,
}
use btc_eth_indexer.Types.{Chain, Block}
use btc_eth_indexer.Storage.{
  chain_eq, Transaction, Event, Contract, Token, TokenTransfer, Database, copying_transactions,
  preparing, copying_events, copying_contracts, copying_transfers, inserting_tokens,
  updating_balances, Postgres, Result, done, refused, statement, transact,
}
use btc_eth_indexer.Storage.Statistics.{aggregate}
use btc_eth_indexer.Storage.Writing.{put_blocks, put_transactions, put_diffs, put_last}
use btc_eth_indexer.Storage.Tokens.{Delta, token_deltas, update_token_balances}
use btc_eth_indexer.Storage.Finalization.{finalize_blocks}

-- COPY into a table, which fails at a row that has the key of another
unfoldable pub copy_rows {ℓ} : {A : Type ℓ} → (A → A → Bool) → List A → List A → Try (List A)
copy_rows same [] rows = ok rows
copy_rows same (x ∷ xs) rows =
    if any (same x) rows then throw else copy_rows same xs (rows ++ x ∷ [])

-- `events_chain_tx_logindex_unique`
abbrev same_event : Event → Event → Bool
same_event a b =
    chain_eq a.chain_id b.chain_id && text_eq a.tx_hash b.tx_hash && a.log_index == b.log_index

-- the primary keys of `contracts`, `tokens` and `token_transfers`
abbrev same_contract : Contract → Contract → Bool
same_contract a b = chain_eq a.chain_id b.chain_id && text_eq a.address b.address

abbrev pub same_token : Token → Token → Bool
same_token a b = chain_eq a.chain_id b.chain_id && text_eq a.address b.address

abbrev same_transfer : TokenTransfer → TokenTransfer → Bool
same_transfer a b =
    chain_eq a.chain_id b.chain_id && text_eq a.tx_hash b.tx_hash && a.log_index == b.log_index

-- `INSERT INTO tokens ... ON CONFLICT (chain_id, address) DO NOTHING`, for each token
unfoldable pub insert_tokens : List Token → List Token → List Token
insert_tokens [] rows = rows
insert_tokens (t ∷ ts) rows =
    insert_tokens ts (if any (same_token t) rows then rows else rows ++ t ∷ [])

-- whether the server reads the amounts of the transfers
abbrev is_read : Option ℤ → Bool
is_read none = false
is_read (some n) = true

unfoldable pub copy_transfers :
    Postgres → List TokenTransfer → List TokenTransfer → Try (List TokenTransfer)
copy_transfers pg [] rows = ok rows
copy_transfers pg (t ∷ ts) rows =
    let rest = copy_transfers pg ts (rows ++ t ∷ []) in
    if any (same_transfer t) rows
    then throw
    else if is_read (pg.numeric t.amount)
    then rest
    else throw

module _ (pg : Postgres) where
  abbrev pub put_events : List Event → Database → Try Database
  put_events es db =
      if is_empty es
      then ok db
      else statement pg copying_events
          (copy_rows same_event es db.events >>= λ rows. ok (record db { events = rows }))

  abbrev pub put_contracts : List Contract → Database → Try Database
  put_contracts cs db =
      if is_empty cs
      then ok db
      else statement pg copying_contracts
          (copy_rows same_contract cs db.contracts >>= λ rows. ok (record db { contracts = rows }))

  -- the COPY of the tokens, which is closed without a flush; after an error the transaction is lost
  abbrev pub close_copy : List Token → List Token → Try (List Token)
  close_copy ts rows = if pg.flushes_on_close then copy_rows same_token ts rows else ok rows

  abbrev pub put_tokens : List Token → Database → Try Database
  put_tokens ts db =
      if is_empty ts
      then ok db
      else statement pg inserting_tokens
          (close_copy ts db.tokens >>= λ rows. ok (record db { tokens = insert_tokens ts rows }))

  abbrev pub put_transfers : List TokenTransfer → Database → Try Database
  put_transfers ts db =
      if is_empty ts
      then ok db
      else statement pg copying_transfers (
          copy_transfers pg ts db.token_transfers >>= λ rows.
          ok (record db { token_transfers = rows }))

  module _ (c : Chain) where
    abbrev pub put_balances : List Delta → Database → Try Database
    put_balances ds db =
        if is_empty ds
        then ok db
        else statement pg updating_balances (
            ok (update_token_balances c ds db.token_balances) >>= λ balances.
            ok (record db { token_balances = balances }))

    -- `s.FinalizeBlocks(ctx, chainID, 12)` behind the commit
    abbrev pub then_finalize : Database × Result → Database × Result
    then_finalize (db, refused) = (db, refused)
    then_finalize (db, done) = finalize_blocks pg c 12 db

    module _ (bs : List Block) (ts : List Transaction) (es : List Event) (cs : List Contract)
        (ks : List Token) (fs : List TokenTransfer) where
      -- the steps 2 to 10
      abbrev pub fill_tables : Database → Try Database
      fill_tables db = put_blocks pg bs db >>= λ d1. put_transactions pg ts d1 >>= λ d2.
          put_events es d2 >>= λ d3. put_contracts cs d3 >>= λ d4. put_tokens ks d4 >>= λ d5.
          put_transfers fs d5 >>= λ d6. put_balances (token_deltas fs []) d6 >>= λ d7.
          put_diffs pg c (aggregate ts []) d7 >>= λ d8. put_last pg c bs d8

      -- step 1 opens the COPY of the blocks and that of the transactions, before either has a row
      abbrev pub events_body : Database → Try Database
      events_body db = statement pg preparing (ok db) >>= fill_tables

      -- `WriteBlocksWithEvents`
      unfoldable pub write_blocks_with_events : Database → Database × Result
      write_blocks_with_events db =
          if is_empty bs then (db, done) else then_finalize (transact pg events_body db)
