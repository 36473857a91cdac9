-- ===== src/TxPage/Links.antt =====
-- Where the page of a transaction leads.
use btc_eth_indexer.Prelude.{
  Bool, List, [], ◌∷◌, ◌++◌, Option, none, some, Text, show, ◌≡◌, refl, arith,
}
use btc_eth_indexer.Types.{Chain, chain_text, Transaction}
use btc_eth_indexer.Runtime.{Runtime}
use btc_eth_indexer.Html.{Html, links}
use btc_eth_indexer.Pages.{block_path, address_path}
use btc_eth_indexer.AddressList.{present}
use btc_eth_indexer.TxPage.{status_indicator, party_view, chain_icon, tx_view}

-- the path of an address, if there is one
abbrev pub party_paths : Chain → Option Text → List Text
party_paths chain none = []
party_paths chain (some a) = address_path (chain_text chain) a ∷ []

pub links-party_view :
    (chain : Chain) (o : Option Text) (v : Html)
    → links v ≡ []
    → links (party_view chain o v) ≡ party_paths chain o
unfolding links
links-party_view chain none v e = e
links-party_view chain (some a) v e = refl

links-status_indicator : (status : Text) → links (status_indicator status) ≡ []
unfolding status_indicator links
links-status_indicator status = ground arith

pub links-chain_icon : (chain : Chain) → links (chain_icon chain) ≡ []
unfolding links
links-chain_icon Chain.btc = refl
links-chain_icon Chain.eth = refl

-- The view of a transaction links to its block, to its sender and its receiver where it has them,
-- and to its block again, and nowhere else.
pub links-tx_view :
    (js : Runtime) (chain : Chain) (tx : Transaction) (copied : Bool)
    → links (tx_view js chain tx copied)
      ≡ block_path (chain_text chain) (show tx.block_height)
        ∷ (party_paths chain (present tx.from_addr)
            ++ (party_paths chain (present tx.to_addr)
                ++ (block_path (chain_text chain) (show tx.block_height) ∷ [])))
unfolding tx_view links
links-tx_view js chain tx copied =
    rw
      (
        links-chain_icon chain,
        links-status_indicator tx.status,
        links-party_view chain (present tx.from_addr) _ refl,
        links-party_view chain (present tx.to_addr) _ refl,
      )
      (ground arith)
