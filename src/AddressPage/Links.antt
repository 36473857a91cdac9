-- ===== src/AddressPage/Links.antt =====
-- Where the page of an address leads.
use btc_eth_indexer.Prelude.{
  ℕ, Bool, true, false, List, [], ◌∷◌, ◌++◌, Option, none, some, Text, codes, String, map,
  if◌then◌else◌, ◌≡◌, refl, arith, Try, append-nil,
}
use btc_eth_indexer.Types.{Chain, chain_text, is_btc, Transaction, Contract, btc, eth}
use btc_eth_indexer.Runtime.{Runtime}
use btc_eth_indexer.Html.{Html, links, nothing}
use btc_eth_indexer.Pages.{address_path, tx_path}
use btc_eth_indexer.AddressList.{filtered}
use btc_eth_indexer.AddressList.Rows.{links-address_transaction_list}
use btc_eth_indexer.AnimatedNumber.{animated_number}
use btc_eth_indexer.TxPage.Links.{links-chain_icon}
use btc_eth_indexer.AddressPage.{
  AddressState, stat_card, creator_view, contract_badge, address_header, address_numbers,
  address_view,
}
use btc_eth_indexer.AddressPage.TokenList.{token_list, links-token_list}

append_middle :
    {a b p q c d : List Text} → a ≡ b → p ≡ [] → q ≡ [] → c ≡ d → a ++ (p ++ (q ++ c)) ≡ b ++ d
append_middle {b = b} {d = d} e f g h = let m : [] ++ ([] ++ d) ≡ d = refl in cc

module _ (js : Runtime) (format_units : Text → ℕ → Try Text) where
  -- the path of the creator of a contract
  abbrev pub creator_paths : Chain → Option Contract → List Text
  creator_paths chain none = []
  creator_paths chain (some c) = address_path (chain_text chain) c.creator_addr ∷ []

  links-creator_view :
      (chain : Chain) (o : Option Contract)
      → links (creator_view js format_units chain o) ≡ creator_paths chain o
  unfolding links
  links-creator_view chain none = refl
  links-creator_view chain (some c) = refl

  links-contract_badge : (o : Option Contract) → links (contract_badge js format_units o) ≡ []
  unfolding links
  links-contract_badge none = refl
  links-contract_badge (some c) = refl

  links-stat_card :
      (sign : String) (title : Text) (loading : Bool) (v : Html)
      → links v ≡ []
      → links (stat_card js format_units sign title loading v) ≡ []
  unfolding links
  links-stat_card sign title true v e = refl
  links-stat_card sign title false v e = e

  links-address_header :
      (chain : Chain) (address : Text) (s : AddressState)
      → links (address_header js format_units chain address s)
        ≡ codes "/" ∷ creator_paths chain s.contract
  unfolding links animated_number
  links-address_header chain address s =
      rw
        (
          links-chain_icon chain,
          links-contract_badge s.contract,
          links-creator_view chain s.contract,
        )
        (ground (arith, append-nil (creator_paths chain s.contract)))

  links-address_numbers :
      (chain : Chain) (address : Text) (s : AddressState)
      → links (address_numbers js format_units chain address s) ≡ []
  unfolding links animated_number
  links-address_numbers chain address s = ground arith

  links-tokens_if :
      (chain : Chain) (s : AddressState)
      → links (if is_btc chain then nothing else token_list s.tokens) ≡ []
  unfolding links
  links-tokens_if btc s = refl
  links-tokens_if eth s = links-token_list s.tokens

  -- The view of an address links to the home page, to the creator if the address is a contract,
  -- and to the transactions of the chosen direction, in order, and nowhere else.
  pub links-address_view :
      (chain : Chain) (address : Text) (s : AddressState) (txs : List Transaction)
      → links (address_view js format_units chain address s txs)
        ≡ codes "/"
          ∷ (creator_paths chain s.contract
              ++ map
                  (λ tx. tx_path (chain_text chain) tx.tx_hash)
                  (filtered s.direction address txs))
  unfolding address_view links
  links-address_view chain address s txs =
      append_middle (links-address_header chain address s) (links-address_numbers chain address s)
        (links-tokens_if chain s) (links-address_transaction_list js chain address s.direction txs)
