-- ===== src/Tests/Reorgs.antt =====
-- Stored chains of which the node has kept the block of height 5, or none.
use btc_eth_indexer.Prelude.{
  ℕ, ◌+◌, ◌-◌, ◌^◌, ◌<◌, false, true, [], ◌∷◌, none, some, Option, Try, ok, text_eq, codes, show,
  if◌then◌else◌, ◌≡◌, refl, arith, Text,
}
use btc_eth_indexer.Types.{Block}
use btc_eth_indexer.Reorg.{Surroundings, ReorgResult, failed, found, find_fork_point, detect}
use btc_eth_indexer.Reorg.ForkPoint.{
  WalksBack, stay, back, IsEnd, still_there, IsForkPoint, find_fork_point-IsForkPoint,
}
use btc_eth_indexer.Reorg.Complete.{find_fork_point_wraps, detect-found}
use btc_eth_indexer.Tests.Samples.{block_seven}

abbrev block_at : ℕ → Block
block_at n = record block_seven { height = n; hash = show n; parent_hash = codes "other" }

abbrev kept : Text → Try (Option Block)
kept hash = if text_eq hash (codes "5") then ok (some (block_at 5)) else ok none

abbrev forked : Surroundings
forked = record {
  stored = λ n. ok (some (block_at n));
  on_node = kept;
  cancelled = λ n. false;
  max_depth = 100;
}

-- a node that has none of the stored blocks
abbrev replaced : Surroundings
replaced = record forked { on_node = λ hash. ok none }

abbrev result : ReorgResult
result = record { detected = true; rollback_height = 5; rollback_hash = codes "5"; depth = 3 }

find_fork_point-IsForkPoint_example : IsForkPoint forked 7 0 result
unfolding find_fork_point show
find_fork_point-IsForkPoint_example = find_fork_point-IsForkPoint forked 7 result refl

gone_to_five : WalksBack forked 7 5
unfolding show
gone_to_five = back 6 5 (block_at 7) refl refl (back 5 5 (block_at 6) refl refl (stay 5))

five_is_there : IsEnd forked 5 (show 5)
unfolding show
five_is_there = still_there (block_at 5) refl refl

detect-found_example : detect forked (block_at 8 ∷ []) ≡ found 5 (show 5) 3
unfolding show
detect-found_example =
    detect-found forked (λ k. refl) (block_at 8) (block_at 7) [] 4 (show 5) refl refl
      (λ e. ground arith) gone_to_five five_is_there (omega arith)

all_gone : WalksBack replaced 2 0
all_gone = back 1 0 (block_at 2) refl refl (back 0 0 (block_at 1) refl refl (stay 0))

find_fork_point_wraps_example :
    (r : ReorgResult) × (find_fork_point replaced 2 ≡ failed (some r))
    × (r.rollback_height ≡ 2 ^ 64 + 2 - 100)
    × (2 < r.rollback_height)
find_fork_point_wraps_example =
    find_fork_point_wraps replaced (λ k. refl) 2 all_gone (omega arith) (omega arith)
