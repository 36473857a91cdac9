-- ===== src/Pollers/Answers.antt =====
-- A BTC poll of a node that serves one chain of blocks answers as the coordinator relies on.
use btc_eth_indexer.Prelude.{
  ℕ, zero, suc, ◌+◌, ◌^◌, ◌≤◌, ◌<◌, false, Bool-cases, inl, inr, leb, List, [], ◌∷◌, ◌++◌, text_eq,
  if_intro, Try, ok, throw, ◌>>=◌, append_assoc, append-nil, ◌≡◌, sym, subst, arith,
}
use btc_eth_indexer.Types.{Chain, Block}
use btc_eth_indexer.Storage.{Transaction, orphaned}
use btc_eth_indexer.Coordinator.Growth.{IsRun, single, more}
use btc_eth_indexer.Coordinator.Polling.{IsAnswer, failing, nothing, fresh}
use btc_eth_indexer.Pollers.{BtcNode, add_block, poll_to, btc_poll}
use btc_eth_indexer.Pollers.Heights.{due, collect, poll_to-collect}

-- A chain of blocks, one for each height, each the parent of the next.
pub record IsBlockchain (c : Chain) (chain : ℕ → Block) : Type 0 where
  pub placed : (h : ℕ) → (chain h).height ≡ h
  pub own : (h : ℕ) → (chain h).chain_id ≡ c
  pub live : (h : ℕ) → text_eq (chain h).status orphaned ≡ false
  pub parent : (h : ℕ) → (chain (h + 1)).parent_hash ≡ (chain h).hash

-- An answer to the question for a block: an error, or the block of the chain.
pub data Serves (b : Block) : Try (Block × List Transaction) → Type 0 where
  silent : Serves b throw
  served : (ts : List Transaction) → Serves b (ok (b, ts))

-- An answer to the question for the tip: an error, or a tip so low that the numbers of a poll with a
-- batch do not wrap around.
pub data IsTip (batch : ℕ) : Try ℕ → Type 0 where
  unknown : IsTip batch throw
  known : (tip : ℕ) → tip + batch + 1 < 2 ^ 64 → IsTip batch (ok tip)

data Collected (bs : List Block) : Try (List Block × List Transaction) → Type 0 where
  lost : Collected bs throw
  got : (ts : List Transaction) → Collected bs (ok (bs, ts))

module _ (c : Chain) (chain : ℕ → Block) (node : BtcNode) where
  blocks_from : ℕ → ℕ → List Block
  blocks_from zero h = []
  blocks_from (suc n) h = chain h ∷ blocks_from n (h + 1)

  next_block :
      (n h : ℕ) (bs : List Block) (ts : List Transaction) (a : Try (Block × List Transaction))
      → Serves (chain h) a
      → ((us : List Transaction)
          → Collected
              ((bs ++ chain h ∷ []) ++ blocks_from n (h + 1))
              (collect node n (h + 1) (bs ++ chain h ∷ [], us)))
      → Collected
          (bs ++ chain h ∷ blocks_from n (h + 1))
          (a >>= λ b. collect node n (h + 1) (add_block node h (bs, ts) b))
  next_block n h bs ts _ silent rest = lost
  next_block n h bs ts _ (served us) rest =
      subst (λ all. Collected all (collect node n (h + 1) (bs ++ chain h ∷ [], ts ++ us)))
        (append_assoc bs (chain h ∷ []) (blocks_from n (h + 1))) (rest (ts ++ us))

  collect-Collected :
      ((h : ℕ) → Serves (chain h) (node.block h))
      → (n h : ℕ) (bs : List Block) (ts : List Transaction)
      → Collected (bs ++ blocks_from n h) (collect node n h (bs, ts))
  unfolding collect blocks_from
  collect-Collected serves zero h bs ts =
      subst (λ all. Collected all (ok (bs, ts))) (sym (append-nil bs)) (got ts)
  collect-Collected serves (suc n) h bs ts =
      if_intro (Collected (bs ++ chain h ∷ blocks_from n (h + 1))) (node.is_done h) throw _
        (λ _. lost)
        (λ _.
          next_block n h bs ts (node.block h) (serves h)
            (λ us. collect-Collected serves n (h + 1) (bs ++ chain h ∷ []) us))

  blocks_from-IsRun : IsBlockchain c chain → (n h : ℕ) → IsRun c h (chain h) (blocks_from n (h + 1))
  unfolding blocks_from
  blocks_from-IsRun k zero h = single h (chain h) (k.placed h) (k.own h) (k.live h)
  blocks_from-IsRun k (suc n) h =
      more h (chain h) (chain (h + 1)) (blocks_from n (h + 1 + 1)) (k.placed h) (k.own h) (k.live h)
        (k.parent h)
        (subst (λ j. IsRun c j (chain (h + 1)) (blocks_from n (h + 1 + 1)))
          (let e : h + 1 ≡ suc h = omega arith in e) (blocks_from-IsRun k n (h + 1)))

  Collected-IsAnswer :
      (last n : ℕ) (a : Try (List Block × List Transaction))
      → IsBlockchain c chain
      → Collected (blocks_from n (last + 1)) a
      → IsAnswer c last a
  unfolding blocks_from
  Collected-IsAnswer last n _ k lost = failing
  Collected-IsAnswer last zero _ k (got ts) = nothing ts
  Collected-IsAnswer last (suc n) _ k (got ts) =
      fresh (chain (last + 1)) (blocks_from n (last + 1 + 1)) ts (
        subst (λ j. IsRun c j (chain (last + 1)) (blocks_from n (last + 1 + 1)))
          (let e : last + 1 ≡ suc last = omega arith in e) (blocks_from-IsRun k n (last + 1)))

  poll_to-IsAnswer :
      (batch last tip : ℕ)
      → IsBlockchain c chain
      → ((h : ℕ) → Serves (chain h) (node.block h))
      → 1 ≤ batch
      → tip + batch + 1 < 2 ^ 64
      → IsAnswer c last (poll_to node last batch tip)
  poll_to-IsAnswer batch last tip k serves b w = elim (Bool-cases (leb tip last)) [
    | inl e ↦ rw e (nothing [])
    | inr e ↦
        subst (IsAnswer c last) (sym (poll_to-collect node batch last tip (ground arith) b w)) (
          Collected-IsAnswer last (due batch last tip) _ k
            (collect-Collected serves (due batch last tip) (last + 1) [] []))
  ]

  from_tip :
      (batch last : ℕ) (o : Try ℕ)
      → IsBlockchain c chain
      → ((h : ℕ) → Serves (chain h) (node.block h))
      → 1 ≤ batch
      → IsTip batch o
      → IsAnswer c last (o >>= λ tip. poll_to node last batch tip)
  from_tip batch last _ k serves b unknown = failing
  from_tip batch last _ k serves b (known tip w) = poll_to-IsAnswer batch last tip k serves b w

  -- If the node serves the blocks of one chain, each the parent of the next, or errors, the batch is
  -- positive and the tip is low, then a poll from any height answers with an error, no blocks, or a
  -- run of blocks from the next height on.
  pub btc_poll-IsAnswer :
      (batch last : ℕ)
      → IsBlockchain c chain
      → ((h : ℕ) → Serves (chain h) (node.block h))
      → 1 ≤ batch
      → IsTip batch node.tip
      → IsAnswer c last (btc_poll node batch last)
  unfolding btc_poll
  btc_poll-IsAnswer batch last k serves b t = from_tip batch last node.tip k serves b t
