-- ===== src/Reorg.antt =====
-- internal/reorg/detector.go: whether new blocks continue the stored chain, and how far the stored
-- chain has to be rolled back. The block storage and the node are parameters, and so is whether the
-- context has been cancelled when a height is reached. Log messages are left out.
pub mod ForkPoint
pub mod Complete
use btc_eth_indexer.Prelude.{
  ℕ, zero, suc, ◌+◌, ◌-◌, ◌^◌, ◌%◌, Bool, true, false, List, [], ◌∷◌, Option, none, some, Text,
  text_eq, ltb, if◌then◌else◌, Try, ok, throw,
}
use btc_eth_indexer.Types.{Block}

-- `ReorgResult`
pub record ReorgResult : Type 0 where
  pub detected : Bool
  pub rollback_height : ℕ
  pub rollback_hash : Text
  pub depth : ℕ

-- the result of a call: a result alone, or an error with the result that is returned beside it
pub data Outcome : Type 0 where
  fine : ReorgResult → Outcome
  failed : Option ReorgResult → Outcome

-- `&ReorgResult{Detected: false}`
abbrev pub no_reorg : ReorgResult
no_reorg = record { detected = false; rollback_height = 0; rollback_hash = []; depth = 0 }

abbrev pub found : ℕ → Text → ℕ → Outcome
found height hash depth =
    fine (record { detected = true; rollback_height = height; rollback_hash = hash; depth = depth })

-- What the detector calls: the storage, the node, and the context.
pub record Surroundings : Type 0 where
  pub stored : ℕ → Try (Option Block)
  pub on_node : Text → Try (Option Block)
  pub cancelled : ℕ → Bool
  pub max_depth : ℕ

module _ (s : Surroundings) where
  -- `chainBlock != nil && chainBlock.Hash == storedBlock.Hash`, where an error counts as no block
  abbrev pub same_hash : Text → Try (Option Block) → Bool
  same_hash hash throw = false
  same_hash hash (ok none) = false
  same_hash hash (ok (some b)) = text_eq b.hash hash

  abbrev pub is_on_node : Block → Bool
  is_on_node b = same_hash b.hash (s.on_node b.hash)

  -- the body of the loop at a height, before the next turn
  abbrev pub at_height : ℕ → ℕ → Try (Option Block) → Outcome → Outcome
  at_height height depth throw rest = failed none
  at_height height depth (ok none) rest = found height [] depth
  at_height height depth (ok (some b)) rest =
      if is_on_node b then found height b.hash depth else rest

  -- `startHeight - uint64(d.maxDepth)` wraps around
  abbrev pub exceeded : ℕ → Outcome
  exceeded start = failed (
      some (record {
        detected = true;
        rollback_height = (2 ^ 64 + start - s.max_depth) % 2 ^ 64;
        rollback_hash = [];
        depth = s.max_depth;
      }))

  -- the loop of `findForkPoint` from a height and a depth on
  unfoldable pub walk : ℕ → ℕ → ℕ → Outcome
  walk start zero depth = exceeded start
  walk start (suc h) depth =
      let rest = walk start h (suc depth) in
      if ltb depth s.max_depth
      then (if s.cancelled (suc h)
          then failed none
          else at_height (suc h) (suc depth) (s.stored (suc h)) rest)
      else exceeded start

  -- `findForkPoint`
  unfoldable pub find_fork_point : ℕ → Outcome
  unfolding walk
  find_fork_point start = walk start start 0

  abbrev pub compare_parent : Block → Try (Option Block) → Outcome
  compare_parent first throw = failed none
  compare_parent first (ok none) = fine no_reorg
  compare_parent first (ok (some parent)) =
      if text_eq parent.hash first.parent_hash then fine no_reorg else find_fork_point parent.height

  abbrev pub detect_first : ℕ → Block → Outcome
  detect_first zero first = fine no_reorg
  detect_first (suc h) first = compare_parent first (s.stored h)

  -- `Detect`
  unfoldable pub detect : List Block → Outcome
  unfolding find_fork_point
  detect [] = fine no_reorg
  detect (b ∷ bs) = detect_first b.height b
