-- ===== src/Tests/Blocks.antt =====
-- The block handler with a table of one block, and the block page.
use btc_eth_indexer.Prelude.{
  List, ◌<◌, ◌^◌, Bool, true, false, [], ◌∷◌, Option, none, some, Text, codes, text_eq, show, Try,
  ok, ◌==◌, if◌then◌else◌, ◌≡◌, ◌≢◌, refl, sym, ap, subst, arith, parse_uint, is_digit,
}
use btc_eth_indexer.Types.{btc, eth, chain_text, Block, BlockTxs}
use btc_eth_indexer.Html.{links}
use btc_eth_indexer.Query.{Query, answered}
use btc_eth_indexer.Pages.{Page, block_path, page_of, chain_of_param}
use btc_eth_indexer.Server.Blocks.{
  BlockStore, Cache, block_key, latest_block_key, cache_get, get_latest_block, handle_get_block,
  response,
}
use btc_eth_indexer.Server.Blocks.Coherence.{
  IsConsistent, IsCoherent, IsNotLatest, stored, handle_get_block-IsCoherent,
}
use btc_eth_indexer.Server.Blocks.Requests.{
  Event, served, run_out, cache_after, number-IsNotLatest, handle_get_block-cache_after,
}
use btc_eth_indexer.BlockPage.{
  first_page, next_page, chain_mismatch, suggested, error_view, block_page,
}
use btc_eth_indexer.BlockPage.Mismatch.{mismatch_link, missing_height_blamed}
use btc_eth_indexer.BlockPage.Paging.{cursor_after, page_at, turns, cursor_after-page_at}
use btc_eth_indexer.Landing.LatestLink.{refused, found_in, blamed, latest_link-cached}
use btc_eth_indexer.Tests.Samples.{whole_numbers, block_seven}

abbrev one_block : BlockStore
one_block = record {
  by_height = λ chain height. if height == 7 then ok (some block_seven) else ok none;
  by_hash = λ chain hash. if text_eq hash (codes "0xb7") then ok (some block_seven) else ok none;
  latest = λ chain. ok (some block_seven);
}

abbrev block_in : Block → Try (Option Block) → Block
block_in d (ok (some b)) = b
block_in d _ = d

only_block :
    (t : Bool) (b : Block)
    → (if t then ok (some block_seven) else ok none) ≡ ok (some b)
    → b ≡ block_seven
only_block true b e = sym (ap (block_in block_seven) e)
only_block false b e = ground arith

one_block-IsConsistent : IsConsistent one_block
unfolding parse_uint is_digit
one_block-IsConsistent = record {
  hash_known = λ chain height b e.
      subst (λ c. one_block.by_hash chain c.hash ≡ ok (some c)) (sym (only_block _ b e)) refl;
  hash_no_number =
      λ chain height b e. subst (λ c. parse_uint c.hash ≡ none) (sym (only_block _ b e)) refl;
  height_known = λ chain hash b e.
      subst (λ c. one_block.by_height chain c.height ≡ ok (some c)) (sym (only_block _ b e)) refl;
  height_fits =
      λ chain hash b e. subst (λ c. c.height < 2 ^ 64) (sym (only_block _ b e)) (omega arith);
}

-- the block under its hash, and under "latest" a block that the table does not have
abbrev two_entries : Cache
two_entries =
    record {
      key = latest_block_key (codes "eth");
      block = record block_seven { height = 6 };
      ttl = 5;
    }
    ∷ record { key = block_key (codes "eth") (codes "0xb7"); block = block_seven; ttl = 3600 }
    ∷ []

two_entries-IsCoherent : IsCoherent one_block IsNotLatest two_entries
unfolding parse_uint is_digit
two_entries-IsCoherent = (
  record {
    chain = codes "eth";
    id = codes "latest";
    colon_free = omega arith;
    keyed = refl;
    true_answer = λ p. absurd (p refl);
  },
  (
    record {
      chain = codes "eth";
      id = codes "0xb7";
      colon_free = omega arith;
      keyed = refl;
      true_answer = λ p. refl;
    },
    tt,
  ),
)

handle_get_block-IsCoherent_example :
    ((handle_get_block one_block (codes "eth") (codes "0xb7") false two_entries).0
      ≡ response one_block false (stored one_block (codes "eth") (codes "0xb7")))
    × IsCoherent one_block IsNotLatest
        (handle_get_block one_block (codes "eth") (codes "0xb7") false two_entries).1
handle_get_block-IsCoherent_example =
    handle_get_block-IsCoherent one_block IsNotLatest (codes "eth") (omega arith)
      one_block-IsConsistent (codes "0xb7") false two_entries number-IsNotLatest (λ e. cc e)
      two_entries-IsCoherent

-- the latest block was asked for, its entry ran out, and then a block was asked for by its height
abbrev three_events : List Event
three_events =
    served (record { chain = codes "eth"; id = some (codes "7"); include_raw = false })
    ∷ run_out (λ e. false)
    ∷ served (record { chain = codes "eth"; id = none; include_raw = false })
    ∷ []

handle_get_block-cache_after_example :
    (handle_get_block one_block
      (codes "eth")
      (codes "0xb7")
      false
      (cache_after one_block three_events)).0
    ≡ response one_block false (stored one_block (codes "eth") (codes "0xb7"))
handle_get_block-cache_after_example =
    handle_get_block-cache_after one_block one_block-IsConsistent three_events (codes "eth")
      (codes "0xb7") false (omega arith, (tt, (omega arith, tt))) (omega arith) (λ e. cc e)

abbrev no_txs : Query BlockTxs
no_txs = answered (record { transactions = []; next_cursor = none })

latest_link-cached_example :
    let answered = get_latest_block one_block (codes "eth") [] in
    (page_of (block_path (codes "eth") (codes "latest"))
      ≡ some (Page.block (codes "eth") (codes "latest")))
    × ((handle_get_block one_block (codes "eth") (codes "latest") false []).0
        ≡ response one_block false (ok (cache_get (latest_block_key (codes "eth")) [])))
    × ((handle_get_block one_block (codes "eth") (codes "latest") false answered.1).0
        ≡ response one_block false (ok (found_in answered.0)))
    × (links (
          block_page whole_numbers
            (codes "eth")
            (codes "latest")
            none
            false
            (refused Block (codes "not found"))
            no_txs)
        ≡ blamed eth)
latest_link-cached_example =
    latest_link-cached whole_numbers one_block eth [] (codes "not found") false no_txs refl

mismatch_link_example :
    (links (error_view btc (codes "0xb7") none)
      ≡ block_path (chain_text (suggested (codes "0xb7"))) (codes "0xb7") ∷ [])
    × (suggested (codes "0xb7") ≢ btc)
    × (chain_mismatch (chain_of_param (chain_text (suggested (codes "0xb7")))) (codes "0xb7")
        ≡ false)
unfolding chain_mismatch
mismatch_link_example = mismatch_link btc (codes "0xb7") none refl

missing_height_blamed_example :
    (chain_mismatch eth (show 123) ≡ true)
    × (links (error_view eth (show 123) none) ≡ block_path (chain_text btc) (show 123) ∷ [])
unfolding show
missing_height_blamed_example = missing_height_blamed 123 none (omega arith)

abbrev two_pages : Option Text → Option BlockTxs
two_pages none = some (record { transactions = []; next_cursor = some (codes "c1") })
two_pages (some s) = some (record { transactions = []; next_cursor = none })

cursor_after-page_at_example :
    cursor_after two_pages (next_page ∷ next_page ∷ first_page ∷ next_page ∷ [])
    ≡ page_at two_pages (turns (next_page ∷ next_page ∷ first_page ∷ next_page ∷ []))
cursor_after-page_at_example =
    cursor_after-page_at two_pages (next_page ∷ next_page ∷ first_page ∷ next_page ∷ [])
