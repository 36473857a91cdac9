-- ===== src/BlockPage.antt =====
-- web/src/app/block/[chain]/[id]/page.tsx: the page of a block with its pages of transactions.
pub mod Detail
pub mod TransactionList
pub mod Mismatch
pub mod Paging
use btc_eth_indexer.Prelude.{
  ℕ, Bool, true, false, not, ◌&&◌, ◌||◌, List, [], ◌∷◌, ◌++◌, Option, none, some, Text, codes,
  starts_with, length, is_empty, ltb, if◌then◌else◌,
}
use btc_eth_indexer.Types.{
  Chain, btc, eth, chain_text, chain_upper, is_btc, Block, BlockTxs, Transaction,
}
use btc_eth_indexer.Runtime.{Runtime}
use btc_eth_indexer.Html.{Html, nothing, text, icon, elem, link, button, ◌⊕◌, say, when}
use btc_eth_indexer.Query.{Query, message_or}
use btc_eth_indexer.Pages.{block_path, chain_of_param}
use btc_eth_indexer.BlockPage.Detail.{block_detail}
use btc_eth_indexer.BlockPage.TransactionList.{transaction_list}

-- `isEthHash`
abbrev pub is_eth_hash : Text → Bool
is_eth_hash id = starts_with id (codes "0x")

-- `chainMismatch`
unfoldable pub chain_mismatch : Chain → Text → Bool
chain_mismatch chain id =
    (is_btc chain && is_eth_hash id)
    || (not (is_btc chain) && not (is_eth_hash id) && ltb (length id) 60)

-- the chain that the error view names
abbrev pub suggested : Text → Chain
suggested id = if is_eth_hash id then eth else btc

abbrev chain_name : Chain → Text
chain_name btc = codes "Bitcoin"
chain_name eth = codes "Ethereum"

abbrev mismatch_text : Chain → Text → Text
mismatch_text chain id =
    codes "This looks like an "
    ++ (chain_name (suggested id)
        ++ (codes " hash, but you're searching on the "
            ++ (chain_upper chain ++ codes " chain. Try switching chains.")))

-- the view when there is no block
unfoldable pub error_view : Chain → Text → Option Text → Html
unfolding chain_mismatch
error_view chain id error =
    let mismatch = chain_mismatch chain id in
    elem "div" (
      elem "div" (if mismatch then say "Chain Mismatch" else say "Error fetching block")
      ⊕ elem "p" (
          text (
            if mismatch
            then mismatch_text chain id
            else message_or (codes "Block not found") error))
      ⊕ when mismatch (
          link (block_path (chain_text (suggested id)) id)
            (say "→ Try on " ⊕ text (chain_name (suggested id)) ⊕ say " instead")))

-- `!cursor`
abbrev pub no_cursor : Option Text → Bool
no_cursor none = true
no_cursor (some s) = is_empty s

-- `txData?.transactions || []` and `txData?.page?.next_cursor`
abbrev pub transactions_of : Option BlockTxs → List Transaction
transactions_of none = []
transactions_of (some d) = d.transactions

abbrev pub next_cursor_of : Option BlockTxs → Option Text
next_cursor_of none = none
next_cursor_of (some d) = d.next_cursor

-- The page's state is the cursor; the two buttons set it.
pub data Click : Type 0 where
  first_page next_page : Click

abbrev pub is_disabled : Option BlockTxs → Click → Option Text → Bool
is_disabled tx_data first_page cursor = no_cursor cursor
is_disabled tx_data next_page cursor = no_cursor (next_cursor_of tx_data)

-- the cursor behind a click; a button that is disabled does nothing
unfoldable pub on_click : Option BlockTxs → Click → Option Text → Option Text
on_click tx_data first_page cursor = if no_cursor cursor then cursor else none
on_click tx_data next_page cursor =
    if no_cursor (next_cursor_of tx_data) then cursor else next_cursor_of tx_data

abbrev spinner : Html
spinner = elem "div" (icon "Loader2")

-- the view of a block
unfoldable pub block_view : Runtime → Chain → Option Text → Bool → Block → Query BlockTxs → Html
block_view js chain cursor copied block txs = elem "div" (
    block_detail js block chain copied
    ⊕ (if txs.is_loading
        then spinner
        else transaction_list (transactions_of txs.data') chain
          ⊕ elem "div" (
              button (is_disabled txs.data' first_page cursor)
                (icon "ChevronLeft" ⊕ say " First Page")
              ⊕ button (is_disabled txs.data' next_page cursor)
                  (say "Next Page " ⊕ icon "ChevronRight"))))

abbrev block_or_error :
    Runtime → Chain → Text → Option Text → Bool → Query Block → Query BlockTxs → Option Block → Html
block_or_error js chain id cursor copied q txs none = error_view chain id q.error_message
block_or_error js chain id cursor copied q txs (some b) =
    if q.is_error
    then error_view chain id q.error_message
    else block_view js chain cursor copied b txs

-- `BlockPage` for the parameters of its address
unfoldable pub block_page :
    Runtime → Text → Text → Option Text → Bool → Query Block → Query BlockTxs → Html
unfolding error_view block_view
block_page js chain id cursor copied q txs =
    if q.is_loading
    then spinner
    else block_or_error js (chain_of_param chain) id cursor copied q txs q.data'
