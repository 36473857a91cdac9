-- ===== src/Landing/RecentBlocks.antt =====
-- web/src/features/landing/components/recent-blocks.tsx
use btc_eth_indexer.Prelude.{
  ℕ, true, false, List, [], ◌∷◌, ◌++◌, Option, none, some, Text, show, map, take, leb,
  if◌then◌else◌,
}
use btc_eth_indexer.Types.{Chain, btc, eth, chain_text, Block}
use btc_eth_indexer.Runtime.{Runtime}
use btc_eth_indexer.Html.{Html, nothing, text, icon, elem, link, button, ◌⊕◌, say, each}
use btc_eth_indexer.Pages.{block_path}
use btc_eth_indexer.Shared.Badges.{chain_badge}
use btc_eth_indexer.Shared.HashText.{hash_text}
use btc_eth_indexer.BlockPage.Detail.{minus_text}

-- the identifiers of the four blocks below the latest one
unfoldable pub history_ids : ℕ → List Text
unfolding minus_text
history_ids height = map (minus_text height) (1 ∷ 2 ∷ 3 ∷ 4 ∷ [])

-- `queries.map(q => q.data).filter(Boolean)`
abbrev pub loaded : List (Option Block) → List Block
loaded [] = []
loaded (none ∷ qs) = loaded qs
loaded (some b ∷ qs) = b ∷ loaded qs

-- `btcBlocks` and `ethBlocks`
abbrev pub chain_blocks : Option Block → List (Option Block) → List Block
chain_blocks none history = []
chain_blocks (some latest) history = latest ∷ loaded history

-- a block with the chain that was asked for it
abbrev pub ChainBlock : Type 0
ChainBlock = Chain × Block

module _ (time : ChainBlock → ℕ) where
  -- a stable insertion behind the entries that are newer
  unfoldable pub insert : ChainBlock → List ChainBlock → List ChainBlock
  insert x [] = x ∷ []
  insert x (y ∷ ys) =
      let rest = y ∷ insert x ys in if leb (time y) (time x) then x ∷ y ∷ ys else rest

  -- `.sort((a, b) => time(b) - time(a))`, which is stable
  unfoldable pub sort : List ChainBlock → List ChainBlock
  unfolding insert
  sort [] = []
  sort (x ∷ xs) = insert x (sort xs)

module _ (js : Runtime) where
  abbrev pub block_time : ChainBlock → ℕ
  block_time (c, b) = js.get_time b.timestamp

  abbrev pub tagged : Chain → List Block → List ChainBlock
  tagged chain blocks = map (λ b. (chain, b)) blocks

  -- `allBlocks`
  unfoldable pub all_blocks : List Block → List Block → List ChainBlock
  unfolding sort
  all_blocks btc_blocks eth_blocks =
      take 8 (sort block_time (tagged btc btc_blocks ++ tagged eth eth_blocks))

  -- `BlockRow`
  unfoldable pub block_row : ChainBlock → Html
  block_row (chain, b) = elem "TableRow" (
      elem "TableCell" (
        chain_badge (chain_text chain)
        ⊕ elem "span" (say "#" ⊕ text (js.to_locale_string (js.ratio b.height 1))))
      ⊕ elem "TableCell" (hash_text b.hash 8 6 true false)
      ⊕ elem "TableCell" (
          elem "span" (text (js.distance_to_now b.timestamp))
          ⊕ elem "span" (text (js.time_text b.timestamp)))
      ⊕ elem "TableCell"
          (link (block_path (chain_text chain) (show b.height)) (button false (icon "ArrowRight"))))

  -- `BlockListSkeleton`
  abbrev skeleton : Html
  skeleton = elem "div" (each {A = ℕ} (λ i. elem "div" nothing) (1 ∷ 2 ∷ 3 ∷ 4 ∷ 5 ∷ []))

  abbrev recent_table : List ChainBlock → Html
  recent_table blocks = elem "Card" (
      elem "CardHeader" (icon "Blocks" ⊕ elem "CardTitle" (say "Latest Blocks"))
      ⊕ elem "Table" (
          elem "TableHeader" (say "Height" ⊕ say "Hash" ⊕ say "Time" ⊕ nothing)
          ⊕ elem "TableBody" (each block_row blocks)))

  -- `RecentBlocks`, for what its queries hold
  unfoldable pub recent_blocks :
      Option Block → Option Block → List (Option Block) → List (Option Block) → Html
  unfolding all_blocks
  recent_blocks none none btc_history eth_history = skeleton
  recent_blocks btc_latest eth_latest btc_history eth_history =
      recent_table
        (all_blocks (chain_blocks btc_latest btc_history) (chain_blocks eth_latest eth_history))
