-- ===== src/Coordinator/Linked.antt =====
-- The methods of the storage keep the blocks of a chain linked, up to its checkpoint.
use btc_eth_indexer.Prelude.{
  ℕ, suc, ◌+◌, Bool, true, false, Bool-cases, inl, inr, ltb, List, [], ◌∷◌, ◌++◌, any, map, filter,
  Option, none, some, Text, if◌then◌else◌, if_false, ok, throw, ok_inj, bind-ok, append_assoc,
  append-nil, ◌≡◌, refl, sym, ap, ◌∙◌, subst, arith,
}
use mathlib.Core.Option
use btc_eth_indexer.Types.{Chain, Block}
use btc_eth_indexer.Storage.{
  chain_eq_same, Transaction, Checkpoint, Database, Postgres, copying_blocks, copying_transactions,
  setting_checkpoint, is_block_at, last_row, block_at,
}
use btc_eth_indexer.Storage.Outcomes.{statement-ok, guarded, transact-preserves}
use btc_eth_indexer.Storage.Statistics.{aggregate}
use btc_eth_indexer.Storage.Writing.{
  same_block, copy_blocks, copy_transactions, with_blocks, with_transactions, with_checkpoint,
  put_blocks, put_transactions, put_txs, put_last, write_body, write_blocks,
}
use btc_eth_indexer.Storage.Invariant.{put_diffs-ok}
use btc_eth_indexer.Storage.Rollback.{is_kept, rollback, rollback_body}
use btc_eth_indexer.Storage.Rollback.Effects.{kept-is_block_at, rollback_body-ok}
use btc_eth_indexer.Storage.Finalization.{
  ripen_block, ripened-is_block_at, ripened-last_row, finalize_blocks, finalize_blocks-preserves,
}
use btc_eth_indexer.Coordinator.Growth.{Links, IsLinked, IsTop, IsRun, last_of, run-IsLinked}

-- The chain has a checkpoint with no block above it, and every block names the block below it.
pub record IsChain (c : Chain) (db : Database) : Type 0 where
  pub checkpoint : Checkpoint
  pub has : db.checkpoints c ≡ some checkpoint
  pub top : IsTop c checkpoint.last_height db.blocks
  pub linked : IsLinked c db.blocks

pub copy_blocks-append :
    (bs rows after : List Block) → copy_blocks bs rows ≡ ok after → rows ++ bs ≡ after
unfolding copy_blocks
copy_blocks-append [] rows after e = append-nil rows ∙ ok_inj rows after e
copy_blocks-append (b ∷ bs) rows after e = elim (Bool-cases (any (same_block b) rows)) [
  | inl k ↦ ground arith
  | inr k ↦
      sym (append_assoc rows (b ∷ []) bs)
      ∙ copy_blocks-append bs (rows ++ b ∷ []) after
          (if_false (any (same_block b) rows) throw _ (ok after) k e)
]

module _ (pg : Postgres) (c : Chain) where
  put_blocks-append :
      (bs : List Block) (db after : Database)
      → put_blocks pg bs db ≡ ok after
      → db.blocks ++ bs ≡ after.blocks
  put_blocks-append bs db after e =
      let (rows, er, same) =
        bind-ok (copy_blocks bs db.blocks) _ after (statement-ok pg copying_blocks _ after e) in
      copy_blocks-append bs db.blocks rows er
      ∙ ap (λ d. d.blocks) (ok_inj (with_blocks db rows) after same)

  put_txs-blocks :
      (ts : List Transaction) (db after : Database)
      → put_txs pg c ts db ≡ ok after
      → db.blocks ≡ after.blocks
  put_txs-blocks [] db after e = ap (λ d. d.blocks) (ok_inj db after e)
  put_txs-blocks (t ∷ ts) db after e =
      let (d, ed, rest) = bind-ok (put_transactions pg (t ∷ ts) db) _ after e in
      guarded pg (λ x. db.blocks ≡ x.blocks) false copying_transactions
        (copy_transactions pg (t ∷ ts) db.transactions) (with_transactions db) db d refl (λ _. refl)
        ed
      ∙ ap (λ x. x.blocks) (put_diffs-ok pg c (aggregate (t ∷ ts) []) d after rest)

  put_last-checkpoint :
      (b : Block) (bs : List Block) (db after : Database)
      → put_last pg c (b ∷ bs) db ≡ ok after
      → (db.blocks ≡ after.blocks)
        × (after.checkpoints c
            ≡ some (record {
              last_height = (last_of c b bs).height;
              last_hash = (last_of c b bs).hash;
            }))
  put_last-checkpoint b [] db after e =
      let same =
        ok_inj (with_checkpoint c b.height b.hash db) after
          (statement-ok pg setting_checkpoint _ after e) in
      (ap (λ d. d.blocks) same, ap (λ d. d.checkpoints c) (sym same) ∙ rw (chain_eq_same c) refl)
  put_last-checkpoint b (b2 ∷ bs) db after e = put_last-checkpoint b2 bs db after e

  write_body-IsChain :
      (b : Block) (bs : List Block) (ts : List Transaction) (db after : Database) (h : IsChain c db)
      → IsRun c (suc h.checkpoint.last_height) b bs
      → Links (block_at c h.checkpoint.last_height db.blocks) (some b)
      → write_body pg c (b ∷ bs) ts db ≡ ok after
      → IsChain c after
  write_body-IsChain b bs ts db after h run first e =
      let (d1, e1, r1) = bind-ok (put_blocks pg (b ∷ bs) db) _ after e in
      let (d2, e2, r2) = bind-ok (put_txs pg c ts d1) _ after r1 in
      let (kept, cp) = put_last-checkpoint b bs d2 after r2 in
      let same = put_blocks-append (b ∷ bs) db d1 e1 ∙ put_txs-blocks ts d1 d2 e2 ∙ kept in
      let (linked, top) =
        run-IsLinked c h.checkpoint.last_height b bs db.blocks run h.top first h.linked in
      record {
        checkpoint = record {
          last_height = (last_of c b bs).height;
          last_hash = (last_of c b bs).hash;
        };
        has = cp;
        top = subst (IsTop c (last_of c b bs).height) same top;
        linked = subst (IsLinked c) same linked;
      }

  -- A write of a run of blocks that continues the linked blocks of a chain leaves them linked.
  pub write_blocks-IsChain :
      (b : Block) (bs : List Block) (ts : List Transaction) (db : Database) (h : IsChain c db)
      → IsRun c (suc h.checkpoint.last_height) b bs
      → Links (block_at c h.checkpoint.last_height db.blocks) (some b)
      → IsChain c (write_blocks pg c (b ∷ bs) ts db).0
  unfolding write_blocks
  write_blocks-IsChain b bs ts db h run first =
      transact-preserves pg (IsChain c) (write_body pg c (b ∷ bs) ts) db h
        (λ after e. write_body-IsChain b bs ts db after h run first e)

  Links-none : (o : Option Block) → Links o none
  Links-none none = tt
  Links-none (some p) = tt

  kept-Links :
      (h k : ℕ) (here next : Bool) (o p : Option Block)
      → ltb h k ≡ here
      → ltb h (suc k) ≡ next
      → Links o p
      → Links (if here then none else o) (if next then none else p)
  kept-Links h k true true o p e f l = tt
  kept-Links h k true false o p e f l = ground arith
  kept-Links h k false true o p e f l = Links-none o
  kept-Links h k false false o p e f l = l

  kept_block_at :
      (h k : ℕ) (bs : List Block)
      → block_at c k (filter (is_kept c h) bs) ≡ (if ltb h k then none else block_at c k bs)
  kept_block_at h k bs = ap last_row (kept-is_block_at c h k bs) ∙ pushed (ltb h k)
    where
      pushed :
          (b : Bool)
          → last_row (if b then [] else filter (is_block_at c k) bs)
            ≡ (if b then none else last_row (filter (is_block_at c k) bs))
      pushed true = refl
      pushed false = refl

  kept-IsLinked : (h : ℕ) (bs : List Block) → IsLinked c bs → IsLinked c (filter (is_kept c h) bs)
  kept-IsLinked h bs l k =
      rw (kept_block_at h k bs, kept_block_at h (suc k) bs)
        (kept-Links h k (ltb h k) (ltb h (suc k)) _ _ refl refl (l k))

  kept-IsTop : (h : ℕ) (bs : List Block) → IsTop c h (filter (is_kept c h) bs)
  kept-IsTop h bs k =
      let above : ltb h (suc (h + k)) ≡ true = ground arith in
      kept_block_at h (suc (h + k)) bs ∙ rw above refl

  -- A rollback leaves the blocks linked, whatever height it is given.
  pub rollback-IsChain :
      (height : ℕ) (hash : Text) (db : Database)
      → IsChain c db
      → IsChain c (rollback c height hash pg db).0
  unfolding rollback
  rollback-IsChain height hash db h =
      transact-preserves pg (IsChain c) (rollback_body c height hash pg) db h (λ after e.
        subst (IsChain c) (rollback_body-ok pg c height hash db after e) (record {
          checkpoint = record { last_height = height; last_hash = hash };
          has = rw (chain_eq_same c, h.has) refl;
          top = kept-IsTop height db.blocks;
          linked = kept-IsLinked height db.blocks h.linked;
        }))

  ripened_block_at :
      (below k : ℕ) (bs : List Block)
      → block_at c k (map (ripen_block c below) bs)
        ≡ Option.map (ripen_block c below) (block_at c k bs)
  ripened_block_at below k bs =
      ap last_row (ripened-is_block_at c below k bs)
      ∙ ripened-last_row c below (filter (is_block_at c k) bs)

  ripened-Links :
      (below : ℕ) (o p : Option Block)
      → Links o p
      → Links (Option.map (ripen_block c below) o) (Option.map (ripen_block c below) p)
  ripened-Links below none p l = tt
  ripened-Links below (some a) none l = tt
  ripened-Links below (some a) (some b) l = l

  -- A finalization leaves the blocks linked.
  pub finalize_blocks-IsChain :
      (depth : ℕ) (db : Database) → IsChain c db → IsChain c (finalize_blocks pg c depth db).0
  finalize_blocks-IsChain depth db h =
      finalize_blocks-preserves pg c depth (IsChain c) db h (λ below. record {
        checkpoint = h.checkpoint;
        has = h.has;
        top = λ k.
            ripened_block_at below (suc (h.checkpoint.last_height + k)) db.blocks
            ∙ ap (Option.map (ripen_block c below)) (h.top k);
        linked = λ k.
            rw (ripened_block_at below k db.blocks, ripened_block_at below (suc k) db.blocks)
              (ripened-Links below _ _ (h.linked k));
      })
