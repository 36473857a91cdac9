-- ===== src/Pollers/Heights.antt =====
-- Which heights a BTC poll fetches, and that its answer is what the coordinator relies on.
use Prim.Native.Nat.{min}
use btc_eth_indexer.Prelude.{
  ℕ, zero, suc, ◌+◌, ◌-◌, ◌^◌, ◌%◌, ◌≤◌, ◌<◌, true, false, leb, List, [], if◌then◌else◌, Try, ok,
  throw, ◌>>=◌, ◌≡◌, refl, ap, ◌∙◌, arith,
}
use mathlib.Core.Path.{fun_ext}
use btc_eth_indexer.Types.{Block}
use btc_eth_indexer.Storage.{Transaction}
use btc_eth_indexer.Pollers.{BtcNode, start_of, end_of, add_block, fetch_blocks, poll_to, btc_poll}

-- the number of heights that a poll is to fetch
abbrev pub due : ℕ → ℕ → ℕ → ℕ
due batch last tip = min batch (tip - last)

module _ (node : BtcNode) where
  -- the blocks of a number of heights one after the other, up to the first error
  unfoldable pub collect :
      ℕ → ℕ → List Block × List Transaction → Try (List Block × List Transaction)
  collect zero height acc = ok acc
  collect (suc n) height acc =
      if node.is_done height
      then throw
      else (node.block height >>= λ b. collect n (height + 1) (add_block node height acc b))

  fetch_blocks-collect :
      (fuel n height last : ℕ) (acc : List Block × List Transaction)
      → n < fuel
      → height + n ≡ last + 1
      → last + 1 < 2 ^ 64
      → fetch_blocks node fuel height last acc ≡ collect n height acc
  unfolding fetch_blocks collect
  fetch_blocks-collect zero n height last acc k e w = ground arith
  fetch_blocks-collect (suc fuel) zero height last acc k e w =
      let behind : leb height last ≡ false = ground arith in rw behind refl
  fetch_blocks-collect (suc fuel) (suc n) height last acc k e w =
      let inside : leb height last ≡ true = ground arith in
      let next : (height + 1) % 2 ^ 64 ≡ height + 1 = omega (arith, e, w) in
      rw (inside, next)
        (ap (λ go. if node.is_done height then throw else (node.block height >>= go))
          (fun_ext (λ b.
            fetch_blocks-collect fuel n (height + 1) last (add_block node height acc b)
              (omega (arith, k)) (omega (arith, e)) w)))

  fetch_range :
      (last start stop d : ℕ)
      → start ≡ last + 1
      → stop ≡ last + d
      → stop + 1 < 2 ^ 64
      → fetch_blocks node (stop - last + 1) start stop ([], []) ≡ collect d (last + 1) ([], [])
  fetch_range last start stop d e f w =
      fetch_blocks-collect (stop - last + 1) d start stop ([], []) (omega (arith, f))
        (omega (arith, e, f)) w
      ∙ ap (λ h. collect d h ([], [])) e

  pub poll_to-collect :
      (batch last tip : ℕ)
      → last < tip
      → 1 ≤ batch
      → tip + batch + 1 < 2 ^ 64
      → poll_to node last batch tip ≡ collect (due batch last tip) (last + 1) ([], [])
  poll_to-collect batch last tip l b w =
      let new : leb tip last ≡ false = ground arith in
      let end : end_of last batch tip ≡ last + due batch last tip = grind arith in
      rw new (
        fetch_range last (start_of last) (end_of last batch tip) (due batch last tip) (omega arith)
          end (omega (arith, end)))

  -- If the tip is known and above the last height, the batch is positive and the numbers stay below
  -- 2 ^ 64, then a poll fetches the next heights one after the other: a batch, or up to the tip.
  pub btc_poll-collect :
      (batch last tip : ℕ)
      → node.tip ≡ ok tip
      → last < tip
      → 1 ≤ batch
      → tip + batch + 1 < 2 ^ 64
      → btc_poll node batch last ≡ collect (due batch last tip) (last + 1) ([], [])
  unfolding btc_poll
  btc_poll-collect batch last tip t l b w =
      ap (λ o. o >>= λ n. poll_to node last batch n) t ∙ poll_to-collect batch last tip l b w
