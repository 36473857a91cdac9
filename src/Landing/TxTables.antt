-- ===== src/Landing/TxTables.antt =====
-- web/src/features/landing/components/recent-transactions.tsx and pending-transactions.tsx: tables
-- of transactions that no page renders.
use btc_eth_indexer.Prelude.{
  Bool, true, false, List, [], ◌∷◌, Option, some, Try, ok, ◌>>=◌, if◌then◌else◌,
}
use btc_eth_indexer.Types.{Chain, eth, chain_text, Transaction}
use btc_eth_indexer.Runtime.{Runtime}
use btc_eth_indexer.Html.{Html, nothing, icon, elem, link, button, ◌⊕◌, say}
use btc_eth_indexer.Query.{Query}
use btc_eth_indexer.Format.{str}
use btc_eth_indexer.Pages.{tx_path}
use btc_eth_indexer.Shared.AddressLink.{address_link}
use btc_eth_indexer.Shared.Badges.{status_badge}
use btc_eth_indexer.Shared.HashText.{hash_text}
use btc_eth_indexer.Shared.ValueDisplay.{value_display}
use btc_eth_indexer.AddressList.{present}
use btc_eth_indexer.BlockPage.TransactionList.{or_coinbase}
use btc_eth_indexer.TxPage.Detail.{receiver_view}

-- `{xs.map(view)}` of views that may throw
unfoldable pub try_each {ℓ} : {A : Type ℓ} → (A → Try Html) → List A → Try Html
try_each view [] = ok nothing
try_each view (x ∷ xs) = view x >>= λ v. try_each view xs >>= λ w. ok (v ⊕ w)

abbrev table_head : Bool → Html
table_head with_arrow = elem "TableHeader" (
    say "Tx Hash"
    ⊕ say "From"
    ⊕ say "To"
    ⊕ say "Value"
    ⊕ say "Status"
    ⊕ (if with_arrow then elem "TableHead" nothing else nothing))

module _ (js : Runtime) (chain : Chain) where
  abbrev sender_cell : Transaction → Html
  sender_cell tx =
      elem "TableCell" (address_link (or_coinbase (present tx.from_addr)) chain false true)

  abbrev receiver_cell : Transaction → Html
  receiver_cell tx = elem "TableCell" (receiver_view chain false (present tx.to_addr))

  abbrev hash_link : Transaction → Html → Html
  hash_link tx v = link (tx_path (chain_text chain) tx.tx_hash) v

  -- `TxRow` of recent-transactions.tsx; it throws where its `ValueDisplay` does
  unfoldable pub recent_row : Transaction → Try Html
  recent_row tx = value_display js (str tx.value) chain false >>= λ value. ok (
      elem "TableRow" (
        elem "TableCell" (hash_link tx (hash_text tx.tx_hash 8 4 true false))
        ⊕ sender_cell tx
        ⊕ receiver_cell tx
        ⊕ elem "TableCell" value
        ⊕ elem "TableCell" (status_badge tx.status)
        ⊕ elem "TableCell" (hash_link tx (button false (icon "ArrowRight")))))

  -- `TxRow` of pending-transactions.tsx
  unfoldable pub pending_row : Transaction → Try Html
  pending_row tx = value_display js (str tx.value) chain false >>= λ value. ok (
      elem "TableRow" (
        elem "TableCell" (hash_text tx.tx_hash 8 4 true false)
        ⊕ sender_cell tx
        ⊕ receiver_cell tx
        ⊕ elem "TableCell" value
        ⊕ elem "TableCell" (elem "Badge" (say "Pending"))))

  abbrev refresh : Bool → Html
  refresh refetching = elem "div" (button refetching (icon "RefreshCw"))

  abbrev recent_loaded : Bool → Option (List Transaction) → Try Html
  recent_loaded refetching (some (t ∷ txs)) = try_each recent_row (t ∷ txs) >>= λ rows.
      ok (elem "div" (refresh refetching ⊕ elem "Table" (table_head true ⊕ elem "TableBody" rows)))
  recent_loaded refetching _ =
      ok (elem "div" (say "No transactions found. The indexer may still be syncing."))

  -- `TxTable`, for what its query holds and whether it is fetched again
  unfoldable pub tx_table : Query (List Transaction) → Bool → Try Html
  unfolding try_each recent_row
  tx_table q refetching =
      if q.is_loading then ok (elem "div" (icon "Loader2")) else recent_loaded refetching q.data'

  abbrev pending_loaded : Bool → Option (List Transaction) → Try Html
  pending_loaded refetching (some (t ∷ txs)) = try_each pending_row (t ∷ txs) >>= λ rows.
      ok (elem "div" (refresh refetching ⊕ elem "Table" (table_head false ⊕ elem "TableBody" rows)))
  pending_loaded refetching _ = ok (elem "div" (say "No pending transactions found."))

module _ (js : Runtime) where
  -- `RecentTransactions`, with the tab of a chain open, of which only the content is mounted
  unfoldable pub recent_transactions : Chain → Query (List Transaction) → Bool → Try Html
  recent_transactions tab q refetching = tx_table js tab q refetching >>= λ table. ok (
      elem "Card" (
        elem "CardTitle" (say "Live Transactions" ⊕ elem "span" nothing)
        ⊕ elem "Tabs" (
            elem "TabsList" (button false (say "BTC") ⊕ button false (say "ETH"))
            ⊕ elem "TabsContent" table)))

  -- `PendingTransactions`
  unfoldable pub pending_transactions : Query (List Transaction) → Bool → Try Html
  pending_transactions q refetching =
      (if q.is_loading
        then ok (elem "div" (icon "Loader2"))
        else pending_loaded js eth refetching q.data')
      >>= λ content. ok (
          elem "Card" (
            elem "CardTitle" (say "Mempool (Pending)" ⊕ elem "span" nothing)
            ⊕ elem "CardContent" content))
