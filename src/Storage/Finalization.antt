-- ===== src/Storage/Finalization.antt =====
-- internal/storage/storage.go: `FinalizeBlocks`.
use btc_eth_indexer.Prelude.{
  ℕ, ◌-◌, Bool, ◌&&◌, ◌||◌, leb, Bool-cases, inl, inr, List, [], ◌∷◌, map, filter, Option, none,
  some, Text, text_eq, text_eq_iff, if◌then◌else◌, if_intro, Try, ok, throw, ◌>>=◌, ok_inj, sum,
  ◌≡◌, refl, sym, ap, ◌∙◌, subst, arith,
}
use mathlib.Core.Option
use btc_eth_indexer.Types.{Chain, Block}
use btc_eth_indexer.Storage.{
  chain_eq, pending, finalized, orphaned, TransactionRow, Event, Checkpoint, Database, starting,
  reading_checkpoint, reading_block, finalizing_blocks, finalizing_transactions, finalizing_events,
  Postgres, later, Result, done, refused, statement, conclude, is_block_at, last_row,
  get_block_by_height,
}
use btc_eth_indexer.Storage.Outcomes.{statement-ok, step-ok, conclude-preserves}
use btc_eth_indexer.Storage.Balances.{part, address_balance-sum}
use btc_eth_indexer.Storage.Invariant.{IsBalanced}

module _ (c : Chain) (below : ℕ) where
  -- `chain_id = $1 AND status = 'pending' AND height <= $2`
  abbrev pub is_ripe : Chain → ℕ → Text → Bool
  is_ripe d k status = chain_eq d c && text_eq status pending && leb k below

  abbrev pub ripen_block : Block → Block
  ripen_block b = record b {
    status = if is_ripe b.chain_id b.height b.status then finalized else b.status;
  }

  abbrev pub ripen_transaction : TransactionRow → TransactionRow
  ripen_transaction r = record r {
    status = if is_ripe r.chain_id r.block_height r.status then finalized else r.status;
  }

  abbrev pub ripen_event : Event → Event
  ripen_event e = record e {
    status = if is_ripe e.chain_id e.block_height e.status then finalized else e.status;
  }

  abbrev ripen_blocks : Database → Database
  ripen_blocks db = record db { blocks = map ripen_block db.blocks }

  abbrev ripen_transactions : Database → Database
  ripen_transactions db = record db { transactions = map ripen_transaction db.transactions }

  abbrev ripen_events : Database → Database
  ripen_events db = record db { events = map ripen_event db.events }

  abbrev pub ripened : Database → Database
  ripened db = ripen_events (ripen_transactions (ripen_blocks db))

  abbrev pub finalize_body : Postgres → Database → Try Database
  finalize_body pg db = statement pg finalizing_blocks (ok (ripen_blocks db)) >>= λ db1.
      statement pg finalizing_transactions (ok (ripen_transactions db1)) >>= λ db2.
      statement pg finalizing_events (ok (ripen_events db2))

module _ (pg : Postgres) (c : Chain) (depth : ℕ) where
  -- behind the query of the tip: nothing to finalize, not enough blocks yet, or the updates
  abbrev pub finalize_from : Option Checkpoint → Database → Database × Result
  finalize_from none db = (db, done)
  finalize_from (some cp) db =
      if leb cp.last_height depth
      then (db, done)
      else conclude (later pg) db (finalize_body c (cp.last_height - depth) (later pg) db)

  -- `FinalizeBlocks`
  unfoldable pub finalize_blocks : Database → Database × Result
  finalize_blocks db =
      if pg.fails_later starting || pg.fails_later reading_checkpoint
      then (db, refused)
      else finalize_from (db.checkpoints c) db

  finalize_body-ok :
      (below : ℕ) (db after : Database)
      → finalize_body c below (later pg) db ≡ ok after
      → ripened c below db ≡ after
  finalize_body-ok below db after e =
      let e1 = step-ok (later pg) finalizing_blocks _ _ after e in
      let e2 = step-ok (later pg) finalizing_transactions _ _ after e1 in
      ok_inj _ after (statement-ok (later pg) finalizing_events _ after e2)

  -- What a change of the statuses preserves, whatever it comes up to, the method preserves.
  pub finalize_blocks-preserves {κ} :
      (P : Database → Type κ) (db : Database)
      → P db
      → ((below : ℕ) → P (ripened c below db))
      → P (finalize_blocks db).0
  unfolding finalize_blocks
  finalize_blocks-preserves P db p h =
      if_intro {A = Database × Result} (λ r. P r.0)
        (pg.fails_later starting || pg.fails_later reading_checkpoint) _ _ (λ _. p)
        (λ _. from (db.checkpoints c))
    where
      from : (o : Option Checkpoint) → P (finalize_from o db).0
      from none = p
      from (some cp) =
          if_intro {A = Database × Result} (λ r. P r.0) (leb cp.last_height depth) _ _ (λ _. p)
            (λ _. conclude-preserves (later pg) P db _ p (λ after e.
              subst P (finalize_body-ok (cp.last_height - depth) db after e)
                (h (cp.last_height - depth))))

module _ (c : Chain) (below : ℕ) where
  ripe_status :
      (d : Chain) (k : ℕ) (s : Text)
      → text_eq (if is_ripe c below d k s then finalized else s) orphaned ≡ text_eq s orphaned
  ripe_status d k s =
      if_intro (λ x. text_eq x orphaned ≡ text_eq s orphaned) (is_ripe c below d k s) finalized s
        (λ h.
          let same : s ≡ pending = ground (arith, text_eq_iff s pending) in
          ap (λ x. text_eq x orphaned) (sym same))
        (λ _. refl)

  pub ripened-is_block_at :
      (k : ℕ) (bs : List Block)
      → filter (is_block_at c k) (map (ripen_block c below) bs)
        ≡ map (ripen_block c below) (filter (is_block_at c k) bs)
  ripened-is_block_at k [] = refl
  ripened-is_block_at k (b ∷ bs) =
      ground (arith, ripened-is_block_at k bs, ripe_status b.chain_id b.height b.status)

  ripened-part :
      (a : Text) (rows : List TransactionRow)
      → sum (part c a) (map (ripen_transaction c below) rows) ≡ sum (part c a) rows
  ripened-part a [] = refl
  ripened-part a (r ∷ rows) =
      rw (ripe_status r.chain_id r.block_height r.status, ripened-part a rows) refl

  pub ripened-last_row :
      (bs : List Block)
      → last_row (map (ripen_block c below) bs) ≡ Option.map (ripen_block c below) (last_row bs)
  ripened-last_row [] = refl
  ripened-last_row (b ∷ []) = refl
  ripened-last_row (b ∷ b2 ∷ bs) = ripened-last_row (b2 ∷ bs)

-- what the reorganisation detector reads of a block
abbrev pub link : Block → ℕ × Text × Text
link b = (b.height, b.hash, b.parent_hash)

abbrev pub found_link : Try (Option Block) → Try (Option (ℕ × Text × Text))
found_link throw = throw
found_link (ok o) = ok (Option.map link o)

module _ (pg : Postgres) (c : Chain) (depth : ℕ) where
  -- A finalization, wherever it fails, leaves the balances of the statistics those that the
  -- transactions add up to.
  pub finalize_blocks-IsBalanced :
      (db : Database) → IsBalanced c db → IsBalanced c (finalize_blocks pg c depth db).0
  finalize_blocks-IsBalanced db h =
      finalize_blocks-preserves pg c depth (IsBalanced c) db h (λ below a.
        h a
        ∙ address_balance-sum c a db.transactions
        ∙ sym (ripened-part c below a db.transactions)
        ∙ sym (address_balance-sum c a (ripened c below db).transactions))

  same_link :
      (below : ℕ) (o : Option Block)
      → Option.map link (Option.map (ripen_block c below) o) ≡ Option.map link o
  same_link below none = refl
  same_link below (some b) = refl

  same_answer :
      (k below : ℕ) (db : Database)
      → found_link (get_block_by_height pg c k (ripened c below db))
        ≡ found_link (get_block_by_height pg c k db)
  unfolding get_block_by_height
  same_answer k below db =
      rw
        (
          ripened-is_block_at c below k db.blocks,
          ripened-last_row c below (filter (is_block_at c k) db.blocks),
        )
        (elim (Bool-cases (pg.fails reading_block)) [
          | inl e ↦ rw e refl
          | inr e ↦ rw e (ap ok (same_link below (last_row (filter (is_block_at c k) db.blocks))))
        ])

  -- A finalization does not change which block is found at a height, as far as its height, its hash
  -- and that of its parent say.
  pub finalize_blocks-get_block_by_height :
      (k : ℕ) (db : Database)
      → found_link (get_block_by_height pg c k (finalize_blocks pg c depth db).0)
        ≡ found_link (get_block_by_height pg c k db)
  finalize_blocks-get_block_by_height k db =
      finalize_blocks-preserves pg c depth
        (λ d.
          found_link (get_block_by_height pg c k d) ≡ found_link (get_block_by_height pg c k db))
        db refl (λ below. same_answer k below db)
