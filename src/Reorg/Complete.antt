-- ===== src/Reorg/Complete.antt =====
-- The detector returns whenever there is a fork point within its depth.
use btc_eth_indexer.Prelude.{
  ℕ, suc, ◌+◌, ◌-◌, ◌^◌, ◌%◌, ◌≤◌, ◌<◌, true, false, List, [], ◌∷◌, some, Text, text_eq,
  text_eq_iff, ltb, ok, ◌≡◌, ◌≢◌, refl, ap, ◌∙◌, arith,
}
use btc_eth_indexer.Types.{Block}
use btc_eth_indexer.Reorg.{
  Surroundings, ReorgResult, failed, at_height, walk, find_fork_point, found, detect,
}
use btc_eth_indexer.Reorg.ForkPoint.{WalksBack, stay, back, IsEnd, nothing_stored, still_there}

module _ (s : Surroundings) (running : (k : ℕ) → s.cancelled k ≡ false) where
  walks_down : (top target : ℕ) → WalksBack s top target → target ≤ top
  walks_down _ _ (stay h) = omega arith
  walks_down _ _ (back h k b e g w) = omega (arith, walks_down h k w)

  -- one turn of the loop, within the maximal depth
  turn :
      (start h depth : ℕ)
      → depth < s.max_depth
      → walk s start (suc h) depth
        ≡ at_height s (suc h) (suc depth) (s.stored (suc h)) (walk s start h (suc depth))
  unfolding walk
  turn start h depth k =
      let deep : ltb depth s.max_depth ≡ true = ground arith in rw (deep, running (suc h)) refl

  -- the loop over the blocks that are gone
  walk_through :
      (start top target depth : ℕ)
      → WalksBack s top target
      → top + depth ≤ target + s.max_depth
      → walk s start top depth ≡ walk s start target (top + depth - target)
  walk_through start _ _ depth (stay h) k = ap (walk s start h) (omega arith)
  walk_through start _ _ depth (back h t b e g w) k =
      let low = walks_down h t w in
      turn start h depth (omega arith)
      ∙ rw (e, g)
          (walk_through start h t (suc depth) w (omega arith) ∙ ap (walk s start t) (omega arith))

  walk_ends :
      (start h depth : ℕ) (hash : Text)
      → IsEnd s (suc h) hash
      → depth < s.max_depth
      → walk s start (suc h) depth ≡ found (suc h) hash (suc depth)
  walk_ends start h depth _ (nothing_stored e) k = turn start h depth k ∙ rw e refl
  walk_ends start h depth _ (still_there b e g) k = turn start h depth k ∙ rw (e, g) refl

  -- If the context is not cancelled, the blocks above a height are gone from the node, and there the
  -- walk ends less than the maximal depth below the start, above 0, then the search returns that
  -- height with its hash and the number of heights that were looked at.
  pub find_fork_point-found :
      (start h : ℕ) (hash : Text)
      → WalksBack s start (suc h)
      → IsEnd s (suc h) hash
      → start < suc h + s.max_depth
      → find_fork_point s start ≡ found (suc h) hash (start - h)
  unfolding find_fork_point
  find_fork_point-found start h hash w e k =
      let low = walks_down start (suc h) w in
      walk_through start start (suc h) 0 w (omega arith)
      ∙ walk_ends start h (start + 0 - suc h) hash e (omega arith)
      ∙ ap (found (suc h) hash) (omega arith)

  -- If every stored block above 0 is gone and there are fewer of them than the maximal depth, the
  -- search fails without a look at the block of height 0, and the height of the result that it
  -- returns beside the error is not below the start but wraps around to nearly 2 ^ 64.
  pub find_fork_point_wraps :
      (start : ℕ)
      → WalksBack s start 0
      → start < s.max_depth
      → s.max_depth < 2 ^ 63
      → (r : ReorgResult) × (find_fork_point s start ≡ failed (some r))
        × (r.rollback_height ≡ 2 ^ 64 + start - s.max_depth)
        × (start < r.rollback_height)
  unfolding find_fork_point walk
  find_fork_point_wraps start w k l = (
    record {
      detected = true;
      rollback_height = (2 ^ 64 + start - s.max_depth) % 2 ^ 64;
      rollback_hash = [];
      depth = s.max_depth;
    },
    walk_through start start 0 0 w (omega arith),
    omega arith,
    omega arith,
  )

  -- If the context is not cancelled, the first new block does not continue the stored block below
  -- it, and there is a fork point within the maximal depth, then the detector reports it.
  pub detect-found :
      (first parent : Block) (rest : List Block) (h : ℕ) (hash : Text)
      → first.height ≡ suc parent.height
      → s.stored parent.height ≡ ok (some parent)
      → parent.hash ≢ first.parent_hash
      → WalksBack s parent.height (suc h)
      → IsEnd s (suc h) hash
      → parent.height < suc h + s.max_depth
      → detect s (first ∷ rest) ≡ found (suc h) hash (parent.height - h)
  unfolding detect
  detect-found first parent rest h hash e f n w t k =
      let other : text_eq parent.hash first.parent_hash ≡ false =
        ground (arith, text_eq_iff parent.hash first.parent_hash) in
      rw (e, f, other) (find_fork_point-found parent.height h hash w t k)
