-- ===== src/Storage/EventWriting/Books.antt =====
-- A write with events keeps the statistics in step with the transactions too.
use btc_eth_indexer.Prelude.{List, [], ◌∷◌, is_empty, ok, ok_inj, bind-ok, All, ◌≡◌, subst}
use btc_eth_indexer.Types.{Chain, Block}
use btc_eth_indexer.Storage.{
  Transaction, Event, Contract, Token, TokenTransfer, Database, preparing, copying_transactions,
  copying_events, copying_contracts, copying_transfers, inserting_tokens, updating_balances,
  Postgres, Result, done, refused, transact,
}
use btc_eth_indexer.Storage.Outcomes.{statement-ok, step-ok, guarded, transact-preserves}
use btc_eth_indexer.Storage.Statistics.{aggregate}
use btc_eth_indexer.Storage.Writing.{
  copy_transactions, with_transactions, with_stats, put_blocks, put_transactions, put_diffs,
}
use btc_eth_indexer.Storage.Rows.{IsSound}
use btc_eth_indexer.Storage.Tokens.{token_deltas, update_token_balances}
use btc_eth_indexer.Storage.Invariant.{
  IsBalanced, put_blocks-IsBalanced, put_last-IsBalanced, put_diffs-ok, with_both-IsBalanced,
}
use btc_eth_indexer.Storage.Finalization.{finalize_blocks-IsBalanced}
use btc_eth_indexer.Storage.EventWriting.{
  copy_rows, same_event, same_contract, insert_tokens, close_copy, copy_transfers, put_events,
  put_contracts, put_tokens, put_transfers, put_balances, fill_tables, events_body, then_finalize,
  write_blocks_with_events,
}

module _ (pg : Postgres) (c : Chain) where
  -- the balances agree once the statistics of the transactions are added up
  abbrev IsDue : List Transaction → Database → Type 0
  IsDue ts db = IsBalanced c (with_stats c (aggregate ts []) db)

  put_transactions-IsDue :
      (ts : List Transaction) (db after : Database)
      → All (IsSound pg c) ts
      → put_transactions pg ts db ≡ ok after
      → IsBalanced c db
      → IsDue ts after
  put_transactions-IsDue ts db after s e h =
      let (rows, er, same) =
        bind-ok (copy_transactions pg ts db.transactions) _ after
          (statement-ok pg copying_transactions _ after e) in
      subst (IsDue ts) (ok_inj (with_transactions db rows) after same)
        (with_both-IsBalanced pg c ts db rows s er h)

  then_finalize-IsBalanced :
      (r : Database × Result) → IsBalanced c r.0 → IsBalanced c (then_finalize pg c r).0
  then_finalize-IsBalanced (db, refused) h = h
  then_finalize-IsBalanced (db, done) h = finalize_blocks-IsBalanced pg c 12 db h

  module _ (bs : List Block) (ts : List Transaction) (es : List Event) (cs : List Contract)
      (ks : List Token) (fs : List TokenTransfer) where
    fill_tables-IsBalanced :
        (db after : Database)
        → All (IsSound pg c) ts
        → fill_tables pg c bs ts es cs ks fs db ≡ ok after
        → IsBalanced c db
        → IsBalanced c after
    fill_tables-IsBalanced db after s e h =
        let (d1, e1, r1) = bind-ok (put_blocks pg bs db) _ after e in
        let (d2, e2, r2) = bind-ok (put_transactions pg ts d1) _ after r1 in
        let (d3, e3, r3) = bind-ok (put_events pg es d2) _ after r2 in
        let (d4, e4, r4) = bind-ok (put_contracts pg cs d3) _ after r3 in
        let (d5, e5, r5) = bind-ok (put_tokens pg ks d4) _ after r4 in
        let (d6, e6, r6) = bind-ok (put_transfers pg fs d5) _ after r5 in
        let (d7, e7, r7) = bind-ok (put_balances pg c (token_deltas fs []) d6) _ after r6 in
        let (d8, e8, r8) = bind-ok (put_diffs pg c (aggregate ts []) d7) _ after r7 in
        let p2 = put_transactions-IsDue ts d1 d2 s e2 (put_blocks-IsBalanced pg c bs db d1 e1 h) in
        let p3 =
          guarded pg (IsDue ts) (is_empty es) copying_events (copy_rows same_event es d2.events)
            (λ rows. record d2 { events = rows }) d2 d3 p2 (λ _. p2) e3 in
        let p4 =
          guarded pg (IsDue ts) (is_empty cs) copying_contracts
            (copy_rows same_contract cs d3.contracts) (λ rows. record d3 { contracts = rows }) d3 d4
            p3 (λ _. p3) e4 in
        let p5 =
          guarded pg (IsDue ts) (is_empty ks) inserting_tokens (close_copy pg ks d4.tokens)
            (λ rows. record d4 { tokens = insert_tokens ks rows }) d4 d5 p4 (λ _. p4) e5 in
        let p6 =
          guarded pg (IsDue ts) (is_empty fs) copying_transfers
            (copy_transfers pg fs d5.token_transfers) (λ rows. record d5 { token_transfers = rows })
            d5 d6 p5 (λ _. p5) e6 in
        let p7 =
          guarded pg (IsDue ts) (is_empty (token_deltas fs [])) updating_balances
            (ok (update_token_balances c (token_deltas fs []) d6.token_balances))
            (λ balances. record d6 { token_balances = balances }) d6 d7 p6 (λ _. p6) e7 in
        put_last-IsBalanced pg c bs d8 after r8
          (subst (IsBalanced c) (put_diffs-ok pg c (aggregate ts []) d7 d8 e8) p7)

  -- If the amounts of the transactions can be read, they belong to the chain and are not orphaned,
  -- then a write of blocks with events leaves the balances of the statistics those that the
  -- transactions add up to, wherever it or its finalization fails.
  pub write_blocks_with_events-IsBalanced :
      (bs : List Block) (ts : List Transaction) (es : List Event) (cs : List Contract)
      (ks : List Token) (fs : List TokenTransfer) (db : Database)
      → All (IsSound pg c) ts
      → IsBalanced c db
      → IsBalanced c (write_blocks_with_events pg c bs ts es cs ks fs db).0
  unfolding write_blocks_with_events
  write_blocks_with_events-IsBalanced [] ts es cs ks fs db s h = h
  write_blocks_with_events-IsBalanced (b ∷ bs) ts es cs ks fs db s h =
      then_finalize-IsBalanced (transact pg (events_body pg c (b ∷ bs) ts es cs ks fs) db) (
        transact-preserves pg (IsBalanced c) (events_body pg c (b ∷ bs) ts es cs ks fs) db h
          (λ after e.
            fill_tables-IsBalanced (b ∷ bs) ts es cs ks fs db after s
              (step-ok pg preparing db (fill_tables pg c (b ∷ bs) ts es cs ks fs) after e) h))
