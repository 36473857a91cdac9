-- ===== src/Storage/Rollback/Effects.antt =====
-- What a rollback leaves in the tables.
use btc_eth_indexer.Prelude.{
  ℕ, Bool, true, false, not, ◌&&◌, ltb, List, [], ◌∷◌, map, filter, Option, none, some, Text,
  text_eq, if◌then◌else◌, ok, ok_inj, ◌≡◌, refl, sym, arith, append-nil,
}
use mathlib.Core.Path.{fun_ext}
use btc_eth_indexer.Types.{Chain, Block}
use btc_eth_indexer.Storage.{
  chain_eq, orphaned, TransactionRow, Event, Checkpoint, Database, archiving, marking_transactions,
  marking_events, deleting, resetting_checkpoint, reading_block, Postgres, done, is_block_at,
  last_row, get_block_by_height,
}
use btc_eth_indexer.Storage.Outcomes.{statement-ok, step-ok, transact-done}
use btc_eth_indexer.Storage.Rollback.{
  is_undone, is_kept, undo_transaction, undo_event, archive, moved, rolled_back, rollback_body,
  rollback,
}

-- filters that agree on every element
pub filter-filter {ℓ} :
    {A : Type ℓ} (p q r : A → Bool)
    → ((x : A) → r x ≡ (q x && p x))
    → (xs : List A) → filter p (filter q xs) ≡ filter r xs
filter-filter p q r e [] = refl
filter-filter p q r e (x ∷ xs) = ground (arith, filter-filter p q r e xs, e x)

-- the transactions of the chain that are not orphaned
abbrev pub is_live : Chain → TransactionRow → Bool
is_live c r = chain_eq r.chain_id c && not (text_eq r.status orphaned)

-- those of them up to a height
abbrev pub is_live_below : Chain → ℕ → TransactionRow → Bool
is_live_below c h r = is_live c r && not (ltb h r.block_height)

module _ (c : Chain) (h : ℕ) where
  pub undo_transaction-is_live :
      (rows : List TransactionRow)
      → filter (is_live c) (map (undo_transaction c h) rows) ≡ filter (is_live_below c h) rows
  undo_transaction-is_live [] = refl
  undo_transaction-is_live (r ∷ rows) = ground (arith, undo_transaction-is_live rows)

  pub kept-is_block_at :
      (k : ℕ) (bs : List Block)
      → filter (is_block_at c k) (filter (is_kept c h) bs)
        ≡ (if ltb h k then [] else filter (is_block_at c k) bs)
  kept-is_block_at k [] = ground arith
  kept-is_block_at k (b ∷ bs) = ground (arith, kept-is_block_at k bs)

  kept_twice :
      (bs : List Block) → filter (is_kept c h) (filter (is_kept c h) bs) ≡ filter (is_kept c h) bs
  kept_twice bs = filter-filter (is_kept c h) (is_kept c h) (is_kept c h) (λ b. ground arith) bs

  undone_twice :
      (rows : List TransactionRow)
      → map (undo_transaction c h) (map (undo_transaction c h) rows)
        ≡ map (undo_transaction c h) rows
  undone_twice [] = refl
  undone_twice (r ∷ rows) = ground (arith, undone_twice rows)

  events_twice :
      (es : List Event) → map (undo_event c h) (map (undo_event c h) es) ≡ map (undo_event c h) es
  events_twice [] = refl
  events_twice (e ∷ es) = ground (arith, events_twice es)

  none_above :
      (bs : List Block)
      → filter (λ b. is_undone c h b.chain_id b.height b.status) (filter (is_kept c h) bs) ≡ []
  none_above [] = refl
  none_above (b ∷ bs) = ground (arith, none_above bs)

  moved_twice :
      (hash : Text) (cps : Chain → Option Checkpoint) (d : Chain)
      → (if chain_eq d c
          then moved c h hash (if chain_eq d c then moved c h hash (cps d) else cps d)
          else (if chain_eq d c then moved c h hash (cps d) else cps d))
        ≡ (if chain_eq d c then moved c h hash (cps d) else cps d)
  moved_twice hash cps d = two (chain_eq d c) (cps d)
    where
      two :
          (own : Bool) (o : Option Checkpoint)
          → (if own
              then moved c h hash (if own then moved c h hash o else o)
              else (if own then moved c h hash o else o))
            ≡ (if own then moved c h hash o else o)
      two true none = refl
      two true (some cp) = refl
      two false o = refl

module _ (pg : Postgres) (c : Chain) (h : ℕ) (hash : Text) where
  pub rollback_body-ok :
      (db after : Database)
      → rollback_body c h hash pg db ≡ ok after
      → rolled_back c h hash db ≡ after
  rollback_body-ok db after e =
      let e1 = step-ok pg archiving (archive c h db) _ after e in
      let e2 = step-ok pg marking_transactions _ _ after e1 in
      let e3 = step-ok pg marking_events _ _ after e2 in
      let e4 = step-ok pg deleting _ _ after e3 in
      ok_inj _ after (statement-ok pg resetting_checkpoint _ after e4)

  pub rolled_back_done :
      (db : Database)
      → (rollback c h hash pg db).1 ≡ done
      → (rollback c h hash pg db).0 ≡ rolled_back c h hash db
  unfolding rollback
  rolled_back_done db e =
      sym (rollback_body-ok db _ (transact-done pg (rollback_body c h hash pg) db e))

  -- After a rollback that is done, no block of the chain above the height is found, and below it
  -- every height has the block that it had.
  pub rollback-get_block_by_height :
      (k : ℕ) (db : Database)
      → (rollback c h hash pg db).1 ≡ done
      → pg.fails reading_block ≡ false
      → get_block_by_height pg c k (rollback c h hash pg db).0
        ≡ (if ltb h k then ok none else get_block_by_height pg c k db)
  unfolding get_block_by_height
  rollback-get_block_by_height k db e f =
      rw (f, rolled_back_done db e, kept-is_block_at c h k db.blocks) (found (ltb h k))
    where
      found :
          (above : Bool)
          → ok (last_row (if above then [] else filter (is_block_at c k) db.blocks))
            ≡ (if above then ok none else ok (last_row (filter (is_block_at c k) db.blocks)))
      found true = refl
      found false = refl

  -- After a rollback that is done, the transactions of the chain that are not orphaned are those
  -- that were not, up to the height.
  pub rollback-is_live :
      (db : Database)
      → (rollback c h hash pg db).1 ≡ done
      → filter (is_live c) (rollback c h hash pg db).0.transactions
        ≡ filter (is_live_below c h) db.transactions
  rollback-is_live db e = rw (rolled_back_done db e) (undo_transaction-is_live c h db.transactions)

  -- A second rollback to the same height and hash changes nothing.
  pub rolled_back_twice :
      (db : Database) → rolled_back c h hash (rolled_back c h hash db) ≡ rolled_back c h hash db
  rolled_back_twice db =
      rw
        (
          kept_twice c h db.blocks,
          undone_twice c h db.transactions,
          events_twice c h db.events,
          none_above c h db.blocks,
          append-nil (rolled_back c h hash db).orphaned_blocks,
          fun_ext (moved_twice c h hash db.checkpoints),
        )
        refl
