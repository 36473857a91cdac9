-- ===== src/Reorg/ForkPoint.antt =====
-- The detector finds the highest stored block that the node still has.
use btc_eth_indexer.Prelude.{
  ℕ, zero, suc, ◌+◌, ◌≤◌, ◌<◌, true, false, [], Option, none, some, Text, ltb, Try, ok, throw, ◌≡◌,
  refl, ap, arith, Bool-cases, inl, inr, subst, if_true, if_false,
}
use btc_eth_indexer.Types.{Block}
use btc_eth_indexer.Reorg.{
  Surroundings, ReorgResult, Outcome, fine, failed, is_on_node, exceeded, at_height, walk,
  find_fork_point,
}

-- From the first height down to, but without, the second, every stored block is gone from the node.
pub data WalksBack (s : Surroundings) : ℕ → ℕ → Type 0 where
  stay : (h : ℕ) → WalksBack s h h
  back :
      (h k : ℕ) (b : Block)
      → s.stored (suc h) ≡ ok (some b)
      → is_on_node s b ≡ false
      → WalksBack s h k
      → WalksBack s (suc h) k

-- A height where the walk ends with a hash: no block is stored, or the node has the one that is.
pub data IsEnd (s : Surroundings) (h : ℕ) : Text → Type 0 where
  nothing_stored : s.stored h ≡ ok none → IsEnd s h []
  still_there : (b : Block) → s.stored h ≡ ok (some b) → is_on_node s b ≡ true → IsEnd s h b.hash

-- A result of the walk from a height and a depth.
pub record IsForkPoint (s : Surroundings) (top depth : ℕ) (r : ReorgResult) : Type 0 where
  pub reported : r.detected ≡ true
  pub gone : WalksBack s top r.rollback_height
  pub ends : IsEnd s r.rollback_height r.rollback_hash
  pub counted : r.rollback_height + r.depth ≡ top + suc depth
  pub bounded : r.depth ≤ s.max_depth
  pub above_zero : 1 ≤ r.rollback_height

module _ (s : Surroundings) where
  result_of : ReorgResult → Outcome → ReorgResult
  result_of d (fine r) = r
  result_of d (failed o) = d

  fine_inj : (r t : ReorgResult) → fine r ≡ fine t → r ≡ t
  unfolding result_of
  fine_inj r t e = ap (result_of r) e

  step_back :
      (h depth : ℕ) (b : Block) (r : ReorgResult)
      → s.stored (suc h) ≡ ok (some b)
      → is_on_node s b ≡ false
      → IsForkPoint s h (suc depth) r
      → IsForkPoint s (suc h) depth r
  step_back h depth b r e g p = record {
    reported = p.reported;
    gone = back h r.rollback_height b e g p.gone;
    ends = p.ends;
    counted = omega (arith, p.counted);
    bounded = p.bounded;
    above_zero = p.above_zero;
  }

  at_height-IsForkPoint :
      (h depth : ℕ) (o : Try (Option Block)) (rest : Outcome) (r : ReorgResult)
      → s.stored (suc h) ≡ o
      → depth < s.max_depth
      → (rest ≡ fine r → IsForkPoint s h (suc depth) r)
      → at_height s (suc h) (suc depth) o rest ≡ fine r
      → IsForkPoint s (suc h) depth r
  at_height-IsForkPoint h depth throw rest r e k ih f = ground arith
  at_height-IsForkPoint h depth (ok none) rest r e k ih f =
      subst (IsForkPoint s (suc h) depth) (fine_inj _ _ f) (record {
        reported = refl;
        gone = stay (suc h);
        ends = nothing_stored e;
        counted = omega arith;
        bounded = omega arith;
        above_zero = omega arith;
      })
  at_height-IsForkPoint h depth (ok (some b)) rest r e k ih f = elim (Bool-cases (is_on_node s b)) [
    | inl there ↦
        subst (IsForkPoint s (suc h) depth)
          (fine_inj _ _ (if_true (is_on_node s b) _ rest _ there f))
          (record {
            reported = refl;
            gone = stay (suc h);
            ends = still_there b e there;
            counted = omega arith;
            bounded = omega arith;
            above_zero = omega arith;
          })
    | inr gone ↦ step_back h depth b r e gone (ih (if_false (is_on_node s b) _ rest _ gone f))
  ]

  walk-IsForkPoint :
      (h start depth : ℕ) (r : ReorgResult)
      → walk s start h depth ≡ fine r
      → IsForkPoint s h depth r
  unfolding walk
  walk-IsForkPoint zero start depth r e = ground arith
  walk-IsForkPoint (suc h) start depth r e =
      let (k, c) : (depth < s.max_depth) × (s.cancelled (suc h) ≡ false) = ground arith in
      at_height-IsForkPoint h depth (s.stored (suc h)) (walk s start h (suc depth)) r refl k
        (walk-IsForkPoint h start (suc depth) r)
        (if_false (s.cancelled (suc h)) (failed none) _ _ c
          (if_true (ltb depth s.max_depth) _ (exceeded s start) _ (ground arith) e))

  -- When the search for the fork point returns without an error, the result names a height above 0,
  -- within the maximal depth, where no block is stored or the node still has the stored block, whose
  -- hash is given; and every stored block above it is gone from the node.
  pub find_fork_point-IsForkPoint :
      (start : ℕ) (r : ReorgResult) → find_fork_point s start ≡ fine r → IsForkPoint s start 0 r
  unfolding find_fork_point
  find_fork_point-IsForkPoint start r e = walk-IsForkPoint start start 0 r e
