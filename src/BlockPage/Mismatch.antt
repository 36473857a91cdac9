-- ===== src/BlockPage/Mismatch.antt =====
-- The error view of the block page: what it takes for the wrong chain, and where it leads.
use btc_eth_indexer.Prelude.{
  ℕ, ◌<◌, true, false, [], ◌∷◌, Option, Text, length, show, ◌≡◌, ◌≢◌, refl, arith, all, is_digit,
  show-digits,
}
use btc_eth_indexer.Types.{Chain, btc, eth, chain_text}
use btc_eth_indexer.Html.{links}
use btc_eth_indexer.Pages.{block_path, chain_of_param}
use btc_eth_indexer.Pages.RoundTrip.{chain_of_param-chain_text}
use btc_eth_indexer.BlockPage.{is_eth_hash, chain_mismatch, suggested, error_view}

suggested-chain_mismatch : (id : Text) → chain_mismatch (suggested id) id ≡ false
unfolding chain_mismatch
suggested-chain_mismatch id = ground arith

-- When the error view reports a chain mismatch, its only link leads to the same identifier on the
-- other chain, and the page there does not report a mismatch for it.
pub mismatch_link :
    (chain : Chain) (id : Text) (error : Option Text)
    → chain_mismatch chain id ≡ true
    → (links (error_view chain id error) ≡ block_path (chain_text (suggested id)) id ∷ [])
      × (suggested id ≢ chain)
      × (chain_mismatch (chain_of_param (chain_text (suggested id))) id ≡ false)
unfolding error_view links chain_mismatch
mismatch_link btc id error h = rw (h, chain_of_param-chain_text (suggested id)) (ground arith)
mismatch_link eth id error h = rw (h, chain_of_param-chain_text (suggested id)) (ground arith)

digits-is_eth_hash : (s : Text) → all is_digit s ≡ true → is_eth_hash s ≡ false
unfolding is_digit
digits-is_eth_hash [] h = refl
digits-is_eth_hash (c ∷ []) h = ground arith
digits-is_eth_hash (c ∷ d ∷ s) h = ground arith

-- A block height of fewer than sixty digits that Ethereum does not have is reported as a Bitcoin
-- hash, and the link leads to that height of Bitcoin.
pub missing_height_blamed :
    (height : ℕ) (error : Option Text)
    → length (show height) < 60
    → (chain_mismatch eth (show height) ≡ true)
      × (links (error_view eth (show height) error)
          ≡ block_path (chain_text btc) (show height) ∷ [])
unfolding error_view links chain_mismatch
missing_height_blamed height error h =
    let e = digits-is_eth_hash (show height) (show-digits height) in
    let m : chain_mismatch eth (show height) ≡ true = rw e (ground arith) in (m, rw (m, e) refl)
