-- ===== src/BlockPage/TransactionList.antt =====
-- web/src/features/block/components/transaction-list.tsx
use btc_eth_indexer.Prelude.{
  true, false, List, [], ◌∷◌, ◌++◌, Option, none, some, Text, codes, show, length, map, ◌≡◌, refl,
}
use btc_eth_indexer.Types.{Chain, chain_text, Transaction}
use btc_eth_indexer.Html.{
  Html, nothing, text, icon, elem, link, button, ◌⊕◌, say, each, links, links-each,
}
use btc_eth_indexer.Pages.{tx_path}
use btc_eth_indexer.Csv.{CsvFile, use_csv_export}
use btc_eth_indexer.AddressList.{present}
use btc_eth_indexer.Shared.HashText.{hash_text, links-hash_text}

abbrev pub or_coinbase : Option Text → Text
or_coinbase none = codes "Coinbase"
or_coinbase (some a) = a

abbrev to_view : Option Text → Html
to_view none = nothing
to_view (some a) = elem "div" (elem "span" (say "To:") ⊕ text a)

unfoldable pub list_row : Chain → Transaction → Html
list_row chain tx = elem "TableRow" (
    elem "TableCell" (icon "FileText" ⊕ hash_text tx.tx_hash 6 4 true false)
    ⊕ elem "TableCell" (
        elem "div" (elem "span" (say "From:") ⊕ text (or_coinbase (present tx.from_addr)))
        ⊕ to_view (present tx.to_addr))
    ⊕ elem "TableCell" (text tx.value)
    ⊕ elem "TableCell" (text tx.fee)
    ⊕ elem "TableCell"
        (link (tx_path (chain_text chain) tx.tx_hash) (button false (icon "ArrowRight"))))

-- `handleExport`
unfoldable pub export_block_txs : Chain → List Transaction → Option CsvFile
export_block_txs chain txs = use_csv_export txs (codes "block-txs-" ++ chain_text chain)

-- `TransactionList`
unfoldable pub transaction_list : List Transaction → Chain → Html
transaction_list [] chain =
    elem "Card" (say "No transactions found in this block (or indexer has not processed them yet).")
transaction_list (tx ∷ txs) chain = elem "Card" (
    elem "CardHeader" (
      elem "CardTitle" (say "Transactions (" ⊕ text (show (length (tx ∷ txs))) ⊕ say ")")
      ⊕ button false (icon "Download" ⊕ say "Export CSV"))
    ⊕ elem "Table" (
        elem "TableHeader" (say "Tx Hash" ⊕ say "From / To" ⊕ say "Value" ⊕ say "Fee" ⊕ nothing)
        ⊕ elem "TableBody" (each (list_row chain) (tx ∷ txs))))

links-to_view : (o : Option Text) → links (to_view o) ≡ []
unfolding links
links-to_view none = refl
links-to_view (some a) = refl

links-list_row :
    (chain : Chain) (tx : Transaction)
    → links (list_row chain tx) ≡ tx_path (chain_text chain) tx.tx_hash ∷ []
unfolding list_row links
links-list_row chain tx =
    rw (links-hash_text tx.tx_hash 6 4 true false, links-to_view (present tx.to_addr)) refl

-- The list holds one link for each transaction of the block, in order, to its page.
pub links-transaction_list :
    (txs : List Transaction) (chain : Chain)
    → links (transaction_list txs chain) ≡ map (λ tx. tx_path (chain_text chain) tx.tx_hash) txs
unfolding transaction_list links
links-transaction_list [] chain = refl
links-transaction_list (tx ∷ txs) chain =
    links-each _ (list_row chain) (tx ∷ txs) (links-list_row chain)
