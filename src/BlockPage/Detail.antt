-- ===== src/BlockPage/Detail.antt =====
-- web/src/features/block/components/block-detail.tsx
use btc_eth_indexer.Prelude.{
  ℕ, ◌-◌, Bool, true, false, [], ◌∷◌, ◌++◌, Option, none, some, Text, codes, show, length, leb,
  ◌==◌, if◌then◌else◌, ◌≡◌, arith,
}
use btc_eth_indexer.Types.{Chain, chain_text, Block}
use btc_eth_indexer.Runtime.{Runtime}
use btc_eth_indexer.Html.{Html, text, icon, elem, link, button, ◌⊕◌, say, links}
use btc_eth_indexer.Pages.{block_path}
use btc_eth_indexer.Shared.Badges.{chain_badge, status_badge, links-chain_badge}
use btc_eth_indexer.Shared.HashText.{hash_text, time_ago, links-hash_text, links-time_ago}
use btc_eth_indexer.Shared.RawData.{raw_data_viewer, links-raw_data_viewer}

-- the text of `height - n`
unfoldable pub minus_text : ℕ → ℕ → Text
minus_text h n = if leb n h then show (h - n) else codes "-" ++ show (n - h)

-- `block.RawData?.length || 0`
abbrev raw_size : Option Text → ℕ
raw_size none = 0
raw_size (some s) = length s

abbrev header_view : Runtime → Block → Chain → Html
header_view js b chain = elem "div" (
    elem "div"
      (link (codes "/") (button false (icon "ArrowLeft")) ⊕ elem "span" (say "Block Details"))
    ⊕ elem "div" (
        elem "div" (
          elem "div" (chain_badge (chain_text chain) ⊕ status_badge b.status)
          ⊕ elem "h1" (
              elem "span" (say "#")
              ⊕ elem "span" (text (js.to_locale_string (js.ratio b.height 1)))))
        ⊕ elem "div" (
            elem "div" (icon "Clock" ⊕ time_ago js b.timestamp false)
            ⊕ elem "div" (text (js.date_text b.timestamp)))))

abbrev parent_view : Block → Chain → Bool → Html
parent_view b chain copied = elem "Card" (
    elem "CardTitle" (say "Parent Block")
    ⊕ link (block_path (chain_text chain) (minus_text b.height 1)) (
        elem "div" (icon "Layers")
        ⊕ elem "div" (hash_text b.parent_hash 10 10 true copied)
        ⊕ icon "ChevronRight"))

abbrev technical_view : Runtime → Block → Bool → Html
technical_view js b copied = elem "Card" (
    elem "CardTitle" (icon "ShieldCheck" ⊕ say "Technical Details")
    ⊕ elem "div" (
        elem "div" (
          elem "span" (say "Raw Size")
          ⊕ elem "span"
              (text (js.to_locale_string (js.ratio (raw_size b.raw_data) 1)) ⊕ say " bytes"))
        ⊕ elem "div" (elem "span" (say "Confirmations") ⊕ elem "Badge" (say "1 (Latest)"))
        ⊕ elem "div" (elem "span" (say "Status") ⊕ status_badge b.status))
    ⊕ elem "div" (elem "h4" (say "Raw Protocol Data") ⊕ raw_data_viewer js b.raw_data copied))

-- `BlockDetail`; `copied` is the state of the buttons that copy a text
unfoldable pub block_detail : Runtime → Block → Chain → Bool → Html
unfolding minus_text
block_detail js b chain copied = elem "div" (
    header_view js b chain
    ⊕ elem "div" (
        elem "Card" (elem "CardTitle" (say "Block Hash") ⊕ elem "div" (icon "Hash" ⊕ text b.hash))
        ⊕ parent_view b chain copied
        ⊕ technical_view js b copied))

-- The view of a block has two links: to the home page, and to the height below, which for the block
-- of height 0 is the text "-1".
pub links-block_detail :
    (js : Runtime) (b : Block) (chain : Chain) (copied : Bool)
    → links (block_detail js b chain copied)
      ≡ codes "/"
        ∷ block_path (chain_text chain) (if b.height == 0 then codes "-1" else show (b.height - 1))
        ∷ []
unfolding block_detail links status_badge minus_text show
links-block_detail js b chain copied =
    rw
      (
        links-chain_badge chain,
        links-time_ago js b.timestamp false,
        links-hash_text b.parent_hash 10 10 true copied,
        links-raw_data_viewer js b.raw_data copied,
      )
      (ground arith)
