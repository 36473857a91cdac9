-- ===== src/Pollers.antt =====
-- internal/poller/btc/poller.go and internal/poller/eth/poller.go: which blocks and which logs the
-- pollers fetch. The nodes are parameters.
pub mod Logs
pub mod LogBounds
pub mod LogCover
pub mod Heights
pub mod Texts
pub mod Decoder
pub mod Panic
pub mod Answers
use btc_eth_indexer.Prelude.{
  ℕ, zero, suc, ◌+◌, ◌-◌, ◌%◌, ◌^◌, Bool, ltb, leb, List, [], ◌∷◌, ◌++◌, if◌then◌else◌, Try, ok,
  throw, ◌>>=◌,
}
use btc_eth_indexer.Types.{Block}
use btc_eth_indexer.Storage.{Transaction}

-- the arithmetic of uint64
abbrev pub wrap : ℕ → ℕ
wrap n = n % 2 ^ 64

-- the range of a poll: from the height behind the last one, at most a batch, up to the tip
abbrev pub start_of : ℕ → ℕ
start_of last = wrap (last + 1)

abbrev pub end_of : ℕ → ℕ → ℕ → ℕ
end_of last batch tip =
    let up_to = wrap (wrap (start_of last + batch) + (2 ^ 64 - 1)) in
    if ltb tip up_to then tip else up_to

-- What a BTC poll asks for: the tip, whether the context is done, and the block of a height with its
-- transactions.
pub record BtcNode : Type 0 where
  pub tip : Try ℕ
  pub is_done : ℕ → Bool
  pub block : ℕ → Try (Block × List Transaction)

module _ (node : BtcNode) where
  abbrev pub add_block :
      ℕ → List Block × List Transaction → Block × List Transaction → List Block × List Transaction
  add_block h (bs, ts) (b, more) = (bs ++ b ∷ [], ts ++ more)

  -- the loop `for height := startHeight; height <= endHeight; height++`; the fuel is the number of
  -- heights that a uint64 has
  unfoldable pub fetch_blocks :
      ℕ → ℕ → ℕ → List Block × List Transaction → Try (List Block × List Transaction)
  fetch_blocks zero height last acc = throw
  fetch_blocks (suc fuel) height last acc =
      if leb height last
      then (if node.is_done height
          then throw
          else (node.block height >>= λ b.
              fetch_blocks fuel (wrap (height + 1)) last (add_block height acc b)))
      else ok acc

  -- behind the tip; a loop of which the end is below 2 ^ 64 - 1 needs no more fuel than this
  abbrev pub poll_to : ℕ → ℕ → ℕ → Try (List Block × List Transaction)
  poll_to last batch tip =
      if leb tip last
      then ok ([], [])
      else fetch_blocks (end_of last batch tip - last + 1) (start_of last) (end_of last batch tip)
          ([], [])

  -- `Poll` of the BTC poller
  unfoldable pub btc_poll : ℕ → ℕ → Try (List Block × List Transaction)
  btc_poll batch last = node.tip >>= λ tip. poll_to last batch tip
