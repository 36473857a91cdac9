-- ===== src/Storage/Duplicates.antt =====
-- What a write does with a transaction that is stored already, also behind a rollback, which keeps
-- its row.
use btc_eth_indexer.Prelude.{
  ℕ, Bool, true, false, List, [], ◌∷◌, ◌++◌, map, any, Text, if◌then◌else◌, if_intro, Try, ok,
  throw, ◌>>=◌, ◌≡◌, refl, sym, ap, ◌∙◌, arith,
}
use btc_eth_indexer.Types.{Chain, Block}
use btc_eth_indexer.Storage.{
  Transaction, TransactionRow, Database, Postgres, copying_blocks, copying_transactions, refused,
}
use btc_eth_indexer.Storage.Outcomes.{transact-throw, transact-preserves}
use btc_eth_indexer.Storage.Writing.{
  copy_blocks, copy_transactions, row_of, same_tx, with_blocks, with_transactions, put_txs,
  write_body, write_blocks,
}
use btc_eth_indexer.Storage.Rollback.{undo_transaction, rollback, rollback_body}
use btc_eth_indexer.Storage.Rollback.Effects.{rollback_body-ok}

pub bind-throw {ℓ κ} :
    {A : Type ℓ} {B : Type κ} (m : Try A) (f : A → Try B)
    → ((a : A) → f a ≡ throw)
    → (m >>= f) ≡ throw
bind-throw (ok a) f h = h a
bind-throw throw f h = refl

pub any-append {ℓ} :
    {A : Type ℓ} (p : A → Bool) (xs ys : List A) → any p xs ≡ true → any p (xs ++ ys) ≡ true
any-append p [] ys e = ground arith
any-append p (x ∷ xs) ys e = ground (arith, any-append p xs ys)

module _ (pg : Postgres) where
  copy_transactions-duplicate :
      (before : List Transaction) (t : Transaction) (behind : List Transaction)
      (rows : List TransactionRow)
      → any (same_tx t) rows ≡ true
      → copy_transactions pg (before ++ t ∷ behind) rows ≡ throw
  unfolding copy_transactions
  copy_transactions-duplicate [] t behind rows e = bind-throw (row_of pg t) _ (λ r. rw e refl)
  copy_transactions-duplicate (u ∷ before) t behind rows e = bind-throw (row_of pg u) _ (λ r.
      if_intro (λ o. o ≡ throw) (any (same_tx u) rows) throw _ (λ _. refl)
        (λ _.
          copy_transactions-duplicate before t behind (rows ++ r ∷ [])
            (any-append (same_tx t) rows (r ∷ []) e)))

  statement-then :
      (failing : Bool) (o : Try (List Block)) (db : Database) (k : Database → Try Database)
      → ((rows : List Block) → k (with_blocks db rows) ≡ throw)
      → ((if failing then throw else o >>= λ rows. ok (with_blocks db rows)) >>= k) ≡ throw
  statement-then true o db k h = refl
  statement-then false throw db k h = refl
  statement-then false (ok rows) db k h = h rows

  stuck_statement :
      (failing : Bool) (o : Try (List TransactionRow)) (f : List TransactionRow → Try Database)
      (k : Database → Try Database)
      → o ≡ throw
      → ((if failing then throw else o >>= f) >>= k) ≡ throw
  stuck_statement true o f k e = refl
  stuck_statement false o f k e = rw e refl

  put_txs-duplicate :
      (c : Chain) (before : List Transaction) (t : Transaction) (behind : List Transaction)
      (db : Database)
      → any (same_tx t) db.transactions ≡ true
      → put_txs pg c (before ++ t ∷ behind) db ≡ throw
  put_txs-duplicate c [] t behind db e =
      stuck_statement (pg.fails copying_transactions) _ (λ rows. ok (with_transactions db rows)) _
        (copy_transactions-duplicate [] t behind db.transactions e)
  put_txs-duplicate c (u ∷ before) t behind db e =
      stuck_statement (pg.fails copying_transactions) _ (λ rows. ok (with_transactions db rows)) _
        (copy_transactions-duplicate (u ∷ before) t behind db.transactions e)

  -- A write that has a transaction with the chain and the hash of a stored one is refused and changes
  -- nothing, whatever the status of the stored one.
  pub write_blocks-duplicate :
      (c : Chain) (b : Block) (bs : List Block) (before : List Transaction) (t : Transaction)
      (behind : List Transaction) (db : Database)
      → any (same_tx t) db.transactions ≡ true
      → write_blocks pg c (b ∷ bs) (before ++ t ∷ behind) db ≡ (db, refused)
  unfolding write_blocks
  write_blocks-duplicate c b bs before t behind db e =
      transact-throw pg (write_body pg c (b ∷ bs) (before ++ t ∷ behind)) db (
        statement-then (pg.fails copying_blocks) (copy_blocks (b ∷ bs) db.blocks) db _
          (λ rows. rw (put_txs-duplicate c before t behind (with_blocks db rows) e) refl))

  kept_rows :
      (c : Chain) (h : ℕ) (t : Transaction) (rows : List TransactionRow)
      → any (same_tx t) (map (undo_transaction c h) rows) ≡ any (same_tx t) rows
  kept_rows c h t [] = refl
  kept_rows c h t (r ∷ rows) = rw (kept_rows c h t rows) refl

  rollback-same_tx :
      (c : Chain) (h : ℕ) (hash : Text) (t : Transaction) (db : Database)
      → any (same_tx t) (rollback c h hash pg db).0.transactions ≡ any (same_tx t) db.transactions
  unfolding rollback
  rollback-same_tx c h hash t db =
      transact-preserves pg (λ d. any (same_tx t) d.transactions ≡ any (same_tx t) db.transactions)
        (rollback_body c h hash pg) db refl
        (λ after e.
          ap (λ d. any (same_tx t) d.transactions) (sym (rollback_body-ok pg c h hash db after e))
          ∙ kept_rows c h t db.transactions)

  -- A rollback does not free the hashes of the transactions that it marks: whatever height it goes
  -- back to, every later write of blocks with a transaction that was stored before is refused and
  -- changes nothing.
  pub rollback-write_blocks :
      (c : Chain) (h : ℕ) (hash : Text) (b : Block) (bs : List Block) (before : List Transaction)
      (t : Transaction) (behind : List Transaction) (db : Database)
      → any (same_tx t) db.transactions ≡ true
      → write_blocks pg c (b ∷ bs) (before ++ t ∷ behind) (rollback c h hash pg db).0
        ≡ ((rollback c h hash pg db).0, refused)
  rollback-write_blocks c h hash b bs before t behind db e =
      write_blocks-duplicate c b bs before t behind (rollback c h hash pg db).0
        (rollback-same_tx c h hash t db ∙ e)
