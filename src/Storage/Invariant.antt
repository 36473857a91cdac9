-- ===== src/Storage/Invariant.antt =====
-- `WriteBlocks` keeps the statistics in step with the transactions.
use btc_eth_indexer.Prelude.{
  List, [], ◌∷◌, Text, ok, ok_inj, bind-ok, ◌+ℤ◌, sum, All, ◌≡◌, sym, ap, ◌∙◌, subst,
}
use btc_eth_indexer.Types.{Chain, Block}
use btc_eth_indexer.Storage.{
  Transaction, TransactionRow, Database, Postgres, copying_blocks, copying_transactions,
  updating_stats, setting_checkpoint,
}
use btc_eth_indexer.Storage.Outcomes.{statement-ok, transact-preserves}
use btc_eth_indexer.Storage.Statistics.{aggregate, update_address_stats, Diffs}
use btc_eth_indexer.Storage.Writing.{
  copy_blocks, copy_transactions, address_balance, with_blocks, with_transactions, with_stats,
  with_checkpoint, put_blocks, put_transactions, put_diffs, put_txs, put_last, write_body,
  write_blocks,
}
use btc_eth_indexer.Storage.Balances.{balance_of, change, address_balance-sum, statistics-change}
use btc_eth_indexer.Storage.Rows.{IsSound, copy_transactions-part}

-- For every address, the statistics have the balance that the transactions of the chain add up to.
abbrev pub IsBalanced : Chain → Database → Type 0
IsBalanced c db =
    (a : Text) → balance_of (db.address_stats c a) ≡ address_balance c a db.transactions

module _ (pg : Postgres) (c : Chain) where
  pub put_blocks-IsBalanced :
      (bs : List Block) (db after : Database)
      → put_blocks pg bs db ≡ ok after
      → IsBalanced c db
      → IsBalanced c after
  put_blocks-IsBalanced bs db after e h =
      let (rows, _, same) =
        bind-ok (copy_blocks bs db.blocks) _ after (statement-ok pg copying_blocks _ after e) in
      subst (IsBalanced c) (ok_inj (with_blocks db rows) after same) h

  pub put_last-IsBalanced :
      (bs : List Block) (db after : Database)
      → put_last pg c bs db ≡ ok after
      → IsBalanced c db
      → IsBalanced c after
  put_last-IsBalanced [] db after e h = subst (IsBalanced c) (ok_inj db after e) h
  put_last-IsBalanced (b ∷ []) db after e h =
      subst (IsBalanced c)
        (ok_inj (with_checkpoint c b.height b.hash db) after
          (statement-ok pg setting_checkpoint _ after e))
        h
  put_last-IsBalanced (b ∷ b2 ∷ bs) db after e h = put_last-IsBalanced (b2 ∷ bs) db after e h

  -- the statistics are added up, or there are none
  pub put_diffs-ok :
      (diffs : Diffs) (db after : Database)
      → put_diffs pg c diffs db ≡ ok after
      → with_stats c diffs db ≡ after
  unfolding update_address_stats
  put_diffs-ok [] db after e = ok_inj db after e
  put_diffs-ok (x ∷ diffs) db after e =
      ok_inj (with_stats c (x ∷ diffs) db) after (statement-ok pg updating_stats _ after e)

  pub with_both-IsBalanced :
      (ts : List Transaction) (db : Database) (rows : List TransactionRow)
      → All (IsSound pg c) ts
      → copy_transactions pg ts db.transactions ≡ ok rows
      → IsBalanced c db
      → IsBalanced c (with_stats c (aggregate ts []) (with_transactions db rows))
  with_both-IsBalanced ts db rows s e h a =
      statistics-change c a ts db.address_stats
      ∙ ap (λ n. n +ℤ sum (change c a) ts) (h a ∙ address_balance-sum c a db.transactions)
      ∙ sym (copy_transactions-part c a pg ts db.transactions rows s e)
      ∙ sym (address_balance-sum c a rows)

  put_txs-IsBalanced :
      (ts : List Transaction) (db after : Database)
      → All (IsSound pg c) ts
      → put_txs pg c ts db ≡ ok after
      → IsBalanced c db
      → IsBalanced c after
  put_txs-IsBalanced [] db after s e h = subst (IsBalanced c) (ok_inj db after e) h
  put_txs-IsBalanced (t ∷ ts) db after s e h =
      let (d, ed, rest) = bind-ok (put_transactions pg (t ∷ ts) db) _ after e in
      let (rows, er, same) =
        bind-ok (copy_transactions pg (t ∷ ts) db.transactions) _ d
          (statement-ok pg copying_transactions _ d ed) in
      let put = put_diffs-ok (aggregate (t ∷ ts) []) d after rest in
      subst (IsBalanced c)
        (ap (with_stats c (aggregate (t ∷ ts) [])) (ok_inj (with_transactions db rows) d same)
          ∙ put)
        (with_both-IsBalanced (t ∷ ts) db rows s er h)

  -- If the amounts of the transactions can be read, they belong to the chain and are not orphaned,
  -- then a write of blocks leaves the balances of the statistics those that the transactions add up
  -- to, wherever it fails.
  pub write_blocks-IsBalanced :
      (bs : List Block) (ts : List Transaction) (db : Database)
      → All (IsSound pg c) ts
      → IsBalanced c db
      → IsBalanced c (write_blocks pg c bs ts db).0
  unfolding write_blocks
  write_blocks-IsBalanced [] ts db s h = h
  write_blocks-IsBalanced (b ∷ bs) ts db s h =
      transact-preserves pg (IsBalanced c) (write_body pg c (b ∷ bs) ts) db h (λ after e.
        let (d, ed, rest) = bind-ok (put_blocks pg (b ∷ bs) db) _ after e in
        let (f, ef, last) = bind-ok (put_txs pg c ts d) _ after rest in
        put_last-IsBalanced (b ∷ bs) f after last
          (put_txs-IsBalanced ts d f s ef (put_blocks-IsBalanced (b ∷ bs) db d ed h)))
