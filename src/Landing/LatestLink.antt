-- ===== src/Landing/LatestLink.antt =====
-- Where the links of the home page to the block "latest" end.
use btc_eth_indexer.Prelude.{
  Bool, true, false, [], ◌∷◌, none, some, Text, codes, ok, parse_uint, ◌≡◌, refl, ap, ◌∙◌, arith,
  is_digit, Option, List, Try, throw, text_eq_iff,
}
use btc_eth_indexer.Types.{Chain, chain_text, btc, eth, Block, BlockTxs}
use btc_eth_indexer.Runtime.{Runtime}
use btc_eth_indexer.Html.{links}
use btc_eth_indexer.Query.{Query}
use btc_eth_indexer.Pages.{Page, block_path, page_of, IsSegment}
use btc_eth_indexer.Pages.RoundTrip.{
  page_of-block_path, chain_text-IsSegment, chain_of_param-chain_text,
}
use btc_eth_indexer.BlockPage.{block_page, error_view, chain_mismatch}
use btc_eth_indexer.Server.Blocks.{
  BlockStore, Cache, handle_get_block, response, find_block, get_block_by_hash, get_latest_block,
  cache_get, latest_block_key, through_cache, latest_through, block_height_key,
}

-- the query of a request that was refused with a message
abbrev pub refused {ℓ} : (A : Type ℓ) → Text → Query A
refused A message = record {
  data' = none;
  is_loading = false;
  is_error = true;
  error_message = some message;
}

latest-IsSegment : IsSegment (codes "latest")
latest-IsSegment = record { filled = refl; slash_free = omega arith }

-- the block of an answer, if it has one
abbrev pub found_in : Try (Option Block) → Option Block
found_in throw = none
found_in (ok o) = o

module _ (store : BlockStore) (chain : Text) where
  find-latest :
      (cache : Cache)
      → store.by_hash chain (codes "latest") ≡ ok none
      → (handle_get_block store chain (codes "latest") false cache).0
        ≡ response store false (ok (cache_get (latest_block_key chain) cache))
  unfolding handle_get_block find_block get_block_by_hash parse_uint is_digit
  find-latest cache e = rw e (from (cache_get (latest_block_key chain) cache))
    where
      from :
          (o : Option Block)
          → response store false
              (through_cache
                (latest_block_key chain)
                (λ b. block_height_key chain b.height)
                (ok none)
                o
                cache).0
            ≡ response store false (ok o)
      from none = refl
      from (some b) = refl

  latest_through-kept :
      (answer : Try (Option Block)) (o : Option Block) (cache : Cache)
      → cache_get (latest_block_key chain) cache ≡ o
      → cache_get
          (latest_block_key chain)
          (latest_through (latest_block_key chain) answer o cache).1
        ≡ found_in (latest_through (latest_block_key chain) answer o cache).0
  unfolding cache_get
  latest_through-kept answer (some b) cache e = e
  latest_through-kept throw none cache e = e
  latest_through-kept (ok none) none cache e = e
  latest_through-kept (ok (some b)) none cache e =
      ground (arith, text_eq_iff (latest_block_key chain) (latest_block_key chain))

  kept-latest :
      (cache : Cache)
      → cache_get (latest_block_key chain) (get_latest_block store chain cache).1
        ≡ found_in (get_latest_block store chain cache).0
  unfolding get_latest_block
  kept-latest cache = latest_through-kept (store.latest chain) _ cache refl

-- where the page leads that shows no block "latest" of a chain
abbrev pub blamed : Chain → List Text
blamed btc = []
blamed eth = block_path (codes "btc") (codes "latest") ∷ []

links-latest_page :
    (js : Runtime) (c : Chain) (message : Text) (copied : Bool) (txs : Query BlockTxs)
    → links (block_page js (chain_text c) (codes "latest") none copied (refused Block message) txs)
      ≡ blamed c
unfolding block_page error_view chain_mismatch links
links-latest_page js btc message copied txs = rw (chain_of_param-chain_text btc) refl
links-latest_page js eth message copied txs = rw (chain_of_param-chain_text eth) refl

-- The link of the home page to the block "latest" of a chain opens a block page, whose request the
-- server takes for one for a hash. If no block of the chain has the hash "latest", the answer is the
-- block that the cache holds as the latest one, less its raw data, and 404 if it holds none. Behind
-- a request for the latest block that is the block it was answered with. After a 404 the page of
-- Ethereum links to the block "latest" of Bitcoin, as a wrong chain, and that of Bitcoin nowhere.
pub latest_link-cached :
    (js : Runtime) (store : BlockStore) (c : Chain) (cache : Cache) (message : Text) (copied : Bool)
    (txs : Query BlockTxs)
    → store.by_hash (chain_text c) (codes "latest") ≡ ok none
    → let chain = chain_text c in
      let asked = λ (held : Cache). (handle_get_block store chain (codes "latest") false held).0 in
      let answered = get_latest_block store chain cache in
      (page_of (block_path chain (codes "latest")) ≡ some (Page.block chain (codes "latest")))
      × (asked cache ≡ response store false (ok (cache_get (latest_block_key chain) cache)))
      × (asked answered.1 ≡ response store false (ok (found_in answered.0)))
      × (links (block_page js chain (codes "latest") none copied (refused Block message) txs)
          ≡ blamed c)
latest_link-cached js store c cache message copied txs e = (
  page_of-block_path (chain_text c) (codes "latest") (chain_text-IsSegment c) latest-IsSegment,
  find-latest store (chain_text c) cache e,
  find-latest store (chain_text c) (get_latest_block store (chain_text c) cache).1 e
      ∙ ap (λ o. response store false (ok o)) (kept-latest store (chain_text c) cache),
  links-latest_page js c message copied txs,
)
