-- ===== src/Coordinator/Polling.antt =====
-- A poll of a poller without events keeps the stored chain linked.
use btc_eth_indexer.Prelude.{
  ℕ, suc, Bool, true, false, Bool-cases, inl, inr, List, [], ◌∷◌, Option, none, some, text_eq,
  text_eq_iff, if◌then◌else◌, if_intro, if_false, Try, ok, throw, ◌≡◌, refl, sym, ap, ◌∙◌, subst,
  arith,
}
use btc_eth_indexer.Types.{Chain, Block}
use btc_eth_indexer.Reorg.{
  Surroundings, Outcome, ReorgResult, fine, failed, no_reorg, detect, detect_first, compare_parent,
}
use btc_eth_indexer.Reorg.ForkPoint.{find_fork_point-IsForkPoint}
use btc_eth_indexer.Storage.{
  Transaction, Database, Result, done, refused, reading_block, reading_checkpoint, block_at,
  get_block_by_height,
}
use btc_eth_indexer.Storage.Writing.{write_blocks}
use btc_eth_indexer.Coordinator.Growth.{Links, IsRun}
use btc_eth_indexer.Coordinator.Linked.{
  IsChain, write_blocks-IsChain, rollback-IsChain, finalize_blocks-IsChain,
}
use btc_eth_indexer.Coordinator.{
  basic, Config, Moment, State, Metrics, surroundings, follow, finish, proceed, take_plain, ask,
  poll_from, poll,
}

-- An answer of a poller: an error, no blocks, or a run of blocks from the next height on.
pub data IsAnswer (c : Chain) (last : ℕ) : Try (List Block × List Transaction) → Type 0 where
  failing : IsAnswer c last throw
  nothing : (ts : List Transaction) → IsAnswer c last (ok ([], ts))
  fresh :
      (b : Block) (bs : List Block) (ts : List Transaction)
      → IsRun c (suc last) b bs
      → IsAnswer c last (ok (b ∷ bs, ts))

run_height : (c : Chain) (h : ℕ) (b : Block) (bs : List Block) → IsRun c h b bs → b.height ≡ h
run_height c h b _ (IsRun.single _ _ e own live) = e
run_height c h b _ (IsRun.more _ _ next bs e own live child run) = e

-- what the detector does not object to continues the block that the storage finds
compare_parent-Links :
    (s : Surroundings) (b : Block) (failing : Bool) (o : Option Block) (r : ReorgResult)
    → compare_parent s b (if failing then throw else ok o) ≡ fine r
    → r.detected ≡ false
    → Links o (some b)
compare_parent-Links s b true o r e n = ground arith
compare_parent-Links s b false none r e n = tt
compare_parent-Links s b false (some p) r e n = elim (Bool-cases (text_eq p.hash b.parent_hash)) [
  | inl k ↦ sym (ground (arith, text_eq_iff p.hash b.parent_hash))
  | inr k ↦
      let point =
        find_fork_point-IsForkPoint s p.height r
          (if_false (text_eq p.hash b.parent_hash) (fine no_reorg) _ (fine r) k e) in
      ground (arith, point.reported)
]

module _ (g : Config) (e : Moment) where
  detect-Links :
      (db : Database) (h : ℕ) (b : Block) (bs : List Block) (r : ReorgResult)
      → b.height ≡ suc h
      → detect (surroundings g e db) (b ∷ bs) ≡ fine r
      → r.detected ≡ false
      → Links (block_at g.chain h db.blocks) (some b)
  unfolding detect get_block_by_height
  detect-Links db h b bs r at d n =
      compare_parent-Links (surroundings g e db) b (e.server.fails reading_block)
        (block_at g.chain h db.blocks) r
        (ap (λ k. detect_first (surroundings g e db) k b) (sym at) ∙ d) n

  finish-IsChain :
      (b : Block) (bs : List Block) (m : Metrics) (r : Database × Result)
      → IsChain g.chain r.0
      → IsChain g.chain (finish g e b bs m r).0.db
  finish-IsChain b bs m (db, refused) h = h
  finish-IsChain b bs m (db, done) h =
      finalize_blocks-IsChain e.server g.chain g.confirmation_depth db h

  follow-IsChain :
      (b : Block) (bs : List Block) (ts : List Transaction) (s : State) (h : IsChain g.chain s.db)
      (o : Outcome)
      → IsRun g.chain (suc h.checkpoint.last_height) b bs
      → detect (surroundings g e s.db) (b ∷ bs) ≡ o
      → IsChain g.chain (follow g e b bs ts [] s o).0.db
  follow-IsChain b bs ts s h (failed o) run d = h
  follow-IsChain b bs ts s h (fine r) run d =
      if_intro {A = State × Result} (λ x. IsChain g.chain x.0.db) r.detected _ _
        (λ _.
          if_intro {A = State × Result} (λ x. IsChain g.chain x.0.db) e.gives_up _ _ (λ _. h)
            (λ _. rollback-IsChain e.server g.chain r.rollback_height r.rollback_hash s.db h))
        (λ n.
          if_intro {A = State × Result} (λ x. IsChain g.chain x.0.db) e.gives_up _ _ (λ _. h)
            (λ _. finish-IsChain b bs s.metrics (write_blocks e.server g.chain (b ∷ bs) ts s.db) (
              write_blocks-IsChain e.server g.chain b bs ts s.db h run (
                detect-Links s.db h.checkpoint.last_height b bs r
                  (run_height g.chain (suc h.checkpoint.last_height) b bs run) d n))))

  take_plain-IsChain :
      (s : State) (h : IsChain g.chain s.db) (a : Try (List Block × List Transaction))
      → IsAnswer g.chain h.checkpoint.last_height a
      → IsChain g.chain (take_plain g e a s).0.db
  unfolding proceed
  take_plain-IsChain s h _ failing = h
  take_plain-IsChain s h _ (nothing ts) = h
  take_plain-IsChain s h _ (fresh b bs ts run) = follow-IsChain b bs ts s h _ run refl

  from_checkpoint :
      (f : ℕ → Try (List Block × List Transaction)) (s : State) (h : IsChain g.chain s.db)
      (failing : Bool)
      → e.poller ≡ basic f
      → ((n : ℕ) → IsAnswer g.chain n (f n))
      → IsChain g.chain (poll_from g e (if failing then throw else ok (some h.checkpoint)) s).0.db
  from_checkpoint f s h true p answers = h
  from_checkpoint f s h false p answers =
      subst (λ q. IsChain g.chain (ask g e q h.checkpoint.last_height s).0.db) (sym p)
        (take_plain-IsChain s h (f h.checkpoint.last_height) (answers h.checkpoint.last_height))

  -- If the poller has no events and answers with an error, no blocks, or blocks of the chain that
  -- follow the height it is asked for and each other, then a poll leaves the blocks of the chain
  -- linked, whatever the node and the server answer.
  pub poll-IsChain :
      (f : ℕ → Try (List Block × List Transaction)) (s : State)
      → e.poller ≡ basic f
      → ((n : ℕ) → IsAnswer g.chain n (f n))
      → IsChain g.chain s.db
      → IsChain g.chain (poll g e s).0.db
  unfolding poll
  poll-IsChain f s p answers h =
      subst
        (λ o.
          IsChain g.chain
            (poll_from g e (if e.server.fails reading_checkpoint then throw else ok o) s).0.db)
        (sym h.has) (from_checkpoint f s h (e.server.fails reading_checkpoint) p answers)
