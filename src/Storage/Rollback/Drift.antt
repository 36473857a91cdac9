-- ===== src/Storage/Rollback/Drift.antt =====
-- A rollback leaves the statistics as they are, while the transactions above the height stop to count.
use btc_eth_indexer.Prelude.{
  ℕ, Bool, true, false, ◌&&◌, ◌||◌, not, List, [], ◌∷◌, map, filter, Text, text_eq, ltb,
  if◌then◌else◌, ℤ, pos, ◌+ℤ◌, int_laws, sum, sum-if, ◌≡◌, refl, ap, ◌∙◌,
}
use btc_eth_indexer.Types.{Chain}
use btc_eth_indexer.Storage.{chain_eq, orphaned, TransactionRow, Database, Postgres, done}
use btc_eth_indexer.Storage.Writing.{address_balance, is_address}
use btc_eth_indexer.Storage.Balances.{balance_of, part, address_balance-sum}
use btc_eth_indexer.Storage.Invariant.{IsBalanced}
use btc_eth_indexer.Storage.Rollback.{undo_transaction, is_above, is_undone, rollback}
use btc_eth_indexer.Storage.Rollback.Effects.{rolled_back_done}

module _ (c : Chain) (h : ℕ) where
  -- `chain_id = $1 AND block_height > $2`
  abbrev pub is_reverted : TransactionRow → Bool
  is_reverted r = is_above c h r.chain_id r.block_height

  module _ (a : Text) where
    undone_status :
        (u : Bool) (s : Text)
        → text_eq (if u then orphaned else s) orphaned ≡ (u || text_eq s orphaned)
    undone_status true s = refl
    undone_status false s = refl

    split :
        (own mine gone above : Bool) (n : ℤ)
        → (if own && mine && not gone then n else pos 0)
          ≡ (if own && mine && not (((own && above) && not gone) || gone) then n else pos 0)
            +ℤ (if own && above then (if own && mine && not gone then n else pos 0) else pos 0)
    split false mine gone above n = omega int_laws
    split true false gone true n = omega int_laws
    split true false gone false n = omega int_laws
    split true true true true n = omega int_laws
    split true true true false n = omega int_laws
    split true true false true n = omega int_laws
    split true true false false n = omega int_laws

    split_part :
        (r : TransactionRow)
        → part c a r
          ≡ part c a (undo_transaction c h r) +ℤ (if is_reverted r then part c a r else pos 0)
    split_part r = rw (undone_status (is_undone c h r.chain_id r.block_height r.status) r.status) (
        split (chain_eq r.chain_id c) (is_address a r.from_addr || is_address a r.to_addr)
          (text_eq r.status orphaned) (ltb h r.block_height) _)

    split_sum :
        (rows : List TransactionRow)
        → sum (part c a) rows
          ≡ sum (part c a) (map (undo_transaction c h) rows)
            +ℤ sum (part c a) (filter is_reverted rows)
    split_sum [] = omega int_laws
    split_sum (r ∷ rows) =
        rw (sum-if (part c a) (is_reverted r) r (filter is_reverted rows), split_sum rows)
          (ap
              (λ n.
                n
                +ℤ (sum (part c a) (map (undo_transaction c h) rows)
                    +ℤ sum (part c a) (filter is_reverted rows)))
              (split_part r)
            ∙ omega int_laws)

    -- Where the balances of the statistics are those that the transactions add up to, a rollback that
    -- is done leaves each of them too high by what the transactions above the height had added.
    pub rollback-drift :
        (pg : Postgres) (hash : Text) (db : Database)
        → IsBalanced c db
        → (rollback c h hash pg db).1 ≡ done
        → balance_of ((rollback c h hash pg db).0.address_stats c a)
          ≡ address_balance c a (rollback c h hash pg db).0.transactions
            +ℤ sum (part c a) (filter is_reverted db.transactions)
    rollback-drift pg hash db b e =
        rw
          (
            rolled_back_done pg c h hash db e,
            b a,
            address_balance-sum c a (map (undo_transaction c h) db.transactions),
            address_balance-sum c a db.transactions,
          )
          (split_sum db.transactions)
