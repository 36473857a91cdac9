-- ===== src/AddressList/Rows.antt =====
-- The rows of the list and where they lead.
use btc_eth_indexer.Prelude.{List, [], ◌∷◌, Option, none, some, Text, ◌≡◌, refl, arith, map}
use btc_eth_indexer.Types.{Chain, chain_text, Transaction}
use btc_eth_indexer.Runtime.{Runtime}
use btc_eth_indexer.Html.{links, links-each}
use btc_eth_indexer.Pages.{tx_path}
use btc_eth_indexer.AddressList.{
  Direction, filtered, present, counterparty_view, tx_row, rows_view, address_transaction_list,
}

links-counterparty_view : (o : Option Text) → links (counterparty_view o) ≡ []
unfolding links
links-counterparty_view none = refl
links-counterparty_view (some a) = refl

links-tx_row :
    (js : Runtime) (chain : Chain) (address : Text) (tx : Transaction)
    → links (tx_row js chain address tx) ≡ tx_path (chain_text chain) tx.tx_hash ∷ []
unfolding tx_row links
links-tx_row js chain address tx = ground (
  arith,
  links-counterparty_view (present tx.to_addr),
  links-counterparty_view (present tx.from_addr),
)

links-rows_view :
    (js : Runtime) (chain : Chain) (address : Text) (txs : List Transaction)
    → links (rows_view (tx_row js chain address) txs)
      ≡ map (λ tx. tx_path (chain_text chain) tx.tx_hash) txs
unfolding links
links-rows_view js chain address [] = refl
links-rows_view js chain address (tx ∷ txs) =
    links-each _ (tx_row js chain address) (tx ∷ txs) (links-tx_row js chain address)

-- The list holds one link for each transaction of the chosen direction, in order, to its page.
pub links-address_transaction_list :
    (js : Runtime) (chain : Chain) (address : Text) (direction : Direction) (txs : List Transaction)
    → links (address_transaction_list js chain address direction txs)
      ≡ map (λ tx. tx_path (chain_text chain) tx.tx_hash) (filtered direction address txs)
unfolding address_transaction_list links
links-address_transaction_list js chain address direction txs =
    links-rows_view js chain address (filtered direction address txs)
