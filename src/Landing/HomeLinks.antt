-- ===== src/Landing/HomeLinks.antt =====
-- Where the home page leads.
use btc_eth_indexer.Prelude.{
  ℕ, List, [], ◌∷◌, ◌++◌, Option, none, some, Text, codes, map, ◌≡◌, refl, arith, append_assoc,
}
use btc_eth_indexer.Types.{Chain, btc, eth, chain_text, Block, Transaction}
use btc_eth_indexer.Runtime.{Runtime}
use btc_eth_indexer.Html.{links, links-each, each}
use btc_eth_indexer.Query.{Query}
use btc_eth_indexer.Pages.{block_path, tx_path, stats_path}
use btc_eth_indexer.AnimatedNumber.{animated_number}
use btc_eth_indexer.TxPage.Links.{links-chain_icon}
use btc_eth_indexer.Landing.Home.{
  HomeState, first_txs, height_or_latest, tx_item, pending_tx_item, home_view, hero_section,
  live_stats, live_transactions, block_card, pending_list, hero_height, block_text, lag_view,
  eth_lag, whole,
}

module _ (js : Runtime) where
  links-tx_item :
      (chain : Chain) (tx : Transaction)
      → links (tx_item js chain tx) ≡ tx_path (chain_text chain) tx.tx_hash ∷ []
  unfolding tx_item links
  links-tx_item chain tx = rw (links-chain_icon chain) (ground arith)

  links-pending_tx_item :
      (tx : Transaction) → links (pending_tx_item js tx) ≡ tx_path (codes "eth") tx.tx_hash ∷ []
  unfolding pending_tx_item links
  links-pending_tx_item tx = refl

  links-whole : (n : ℕ) → links (whole js n) ≡ []
  unfolding links animated_number
  links-whole n = refl

  links-lag_view : (lag : ℕ) (unit : Text) → links (lag_view js lag unit) ≡ []
  unfolding links
  links-lag_view lag unit = ground arith

  links-block_text : (o : Option Block) → links (block_text js o) ≡ []
  unfolding links
  links-block_text none = refl
  links-block_text (some b) = refl

  -- the paths of the pages of transactions
  abbrev pub tx_paths : Chain → List Transaction → List Text
  tx_paths chain txs = map (λ tx. tx_path (chain_text chain) tx.tx_hash) txs

  links-live_transactions :
      (s : HomeState)
      → links (live_transactions js s)
        ≡ tx_paths eth (first_txs 4 s.eth_txs)
          ++ (tx_paths btc (first_txs 2 s.btc_txs) ++ (stats_path (codes "eth") ∷ []))
  unfolding links
  links-live_transactions s =
      rw
        (
          links-each _ (tx_item js eth) (first_txs 4 s.eth_txs) (links-tx_item eth),
          links-each _ (tx_item js btc) (first_txs 2 s.btc_txs) (links-tx_item btc),
        )
        (ground (
          arith,
          append_assoc (tx_paths eth (first_txs 4 s.eth_txs)) (tx_paths btc (first_txs 2 s.btc_txs))
              (stats_path (codes "eth") ∷ []),
        ))

  links-hero_height : (q : Query Block) → links (hero_height js q) ≡ []
  unfolding links animated_number
  links-hero_height q = ground arith

  links-hero_section :
      (s : HomeState)
      → links (hero_section js s)
        ≡ block_path (codes "btc") (codes "latest") ∷ block_path (codes "eth") (codes "latest") ∷ []
  unfolding links
  links-hero_section s =
      rw
        (
          links-lag_view (eth_lag js s.now s.eth_latest.data') (codes "s lag"),
          links-hero_height s.btc_latest,
          links-hero_height s.eth_latest,
        )
        refl

  links-live_stats : (s : HomeState) → links (live_stats js s) ≡ []
  unfolding links animated_number
  links-live_stats s =
      rw (links-lag_view (eth_lag js s.now s.eth_latest.data') (codes "s behind")) refl

  links-block_card :
      (chain : Chain) (title : Text) (o : Option Block)
      → links (block_card js chain title o)
        ≡ block_path (chain_text chain) (height_or_latest o) ∷ []
  unfolding links
  links-block_card chain title o = rw (links-chain_icon chain, links-block_text o) refl

  links-pending_list :
      (o : Option (List Transaction)) → links (pending_list js o) ≡ tx_paths eth (first_txs 8 o)
  unfolding links each
  links-pending_list none = refl
  links-pending_list (some []) = refl
  links-pending_list (some (tx ∷ txs)) =
      links-each _ (pending_tx_item js) (first_txs 8 (some (tx ∷ txs))) links-pending_tx_item

-- The links of the home page: two to the block "latest", the transactions that are shown, the
-- latest blocks by height, the pending transactions, and the pages of statistics and of the system.
pub links-home_view :
    (js : Runtime) (s : HomeState)
    → links (home_view js s)
      ≡ block_path (codes "btc") (codes "latest")
        ∷ block_path (codes "eth") (codes "latest")
        ∷ ((tx_paths js eth (first_txs 4 s.eth_txs)
              ++ (tx_paths js btc (first_txs 2 s.btc_txs) ++ (stats_path (codes "eth") ∷ [])))
            ++ (block_path (codes "btc") (height_or_latest s.btc_latest.data')
                ∷ block_path (codes "eth") (height_or_latest s.eth_latest.data')
                ∷ (tx_paths js eth (first_txs 8 s.pending_txs)
                    ++ (stats_path (codes "btc")
                        ∷ stats_path (codes "eth")
                        ∷ codes "/system"
                        ∷ []))))
unfolding home_view links
links-home_view js s =
    rw
      (
        links-hero_section js s,
        links-live_stats js s,
        links-live_transactions js s,
        links-block_text js s.btc_latest.data',
        links-block_text js s.eth_latest.data',
        links-pending_list js s.pending_txs,
      )
      refl
