-- ===== src/AddressList.antt =====
-- web/src/features/address/components/address-transaction-list.tsx: the transactions of an
-- address, filtered by direction.
pub mod Filters
pub mod Rows
use btc_eth_indexer.Prelude.{
  ℕ, ◌^◌, String, Bool, true, false, not, ◌||◌, List, [], ◌∷◌, ◌++◌, Option, none, some, Text,
  codes, is_empty, text_eq, to_lower, length, filter, take, slice_last, show, if◌then◌else◌, Try,
  ok, throw, ◌>>=◌, catch, of_option, big_int,
}
use btc_eth_indexer.Types.{Chain, btc, eth, chain_text, Transaction}
use btc_eth_indexer.Runtime.{Runtime}
use btc_eth_indexer.Html.{Html, nothing, text, icon, elem, link, button, ◌⊕◌, say, when, each}
use btc_eth_indexer.Format.{ellipsis}
use btc_eth_indexer.Pages.{tx_path}
use btc_eth_indexer.Csv.{CsvFile, use_csv_export}

module _ (js : Runtime) where
  open js use {Num, ratio, of_big, parse_int, div, lt, to_fixed}

  abbrev short_amount : Num → Text
  short_amount v = if lt v (ratio 1 10000) then codes "<0.0001" else to_fixed 4 v

  -- `formatValue` of the list: a short amount, and "0" for what is no amount
  unfoldable pub short_value : Text → Chain → Text
  short_value value eth =
      if is_empty value || text_eq value (codes "0")
      then codes "0"
      else catch
          (of_option (big_int value) >>= λ wei.
            ok (short_amount (div (of_big wei) (ratio (10 ^ 18) 1))))
          (codes "0")
  short_value value btc =
      if is_empty value || text_eq value (codes "0")
      then codes "0"
      else short_amount (div (parse_int value) (ratio (10 ^ 8) 1))

-- the state `filter`: "all", "in" or "out"
pub data Direction : Type 0 where
  all_txs in_txs out_txs : Direction

-- `addr?.toLowerCase() === address.toLowerCase()`
abbrev pub same_address : Option Text → Text → Bool
same_address none address = false
same_address (some s) address = text_eq (to_lower s) (to_lower address)

abbrev pub is_sender : Text → Transaction → Bool
is_sender address tx = same_address tx.from_addr address

abbrev pub is_receiver : Text → Transaction → Bool
is_receiver address tx = same_address tx.to_addr address

abbrev pub passes : Direction → Text → Transaction → Bool
passes all_txs address tx = true
passes in_txs address tx = not (is_sender address tx)
passes out_txs address tx = is_sender address tx

unfoldable pub filtered : Direction → Text → List Transaction → List Transaction
filtered direction address txs = filter (passes direction address) txs

unfoldable pub in_count : Text → List Transaction → ℕ
in_count address txs = length (filter (is_receiver address) txs)

unfoldable pub out_count : Text → List Transaction → ℕ
out_count address txs = length (filter (is_sender address) txs)

-- `handleExport`: the file of the transactions that are shown
unfoldable pub export : Chain → Text → Direction → List Transaction → Option CsvFile
unfolding filtered
export chain address direction txs =
    use_csv_export (filtered direction address txs)
      (codes "address-txs-" ++ (chain_text chain ++ (codes "-" ++ address)))

-- an absent or empty address is falsy
abbrev pub present : Option Text → Option Text
present none = none
present (some []) = none
present (some (c ∷ s)) = some (c ∷ s)

abbrev pub currency : Chain → String
currency eth = "ETH"
currency btc = "BTC"

abbrev counterparty_view : Option Text → Html
counterparty_view none = elem "span" (say "Contract Creation")
counterparty_view (some a) = elem "span" (text (ellipsis 8 6 a))

-- one row of the list
unfoldable pub tx_row : Runtime → Chain → Text → Transaction → Html
tx_row js chain address tx =
    let sender = is_sender address tx in
    link (tx_path (chain_text chain) tx.tx_hash) (
      elem "div" (if sender then icon "ArrowUpRight" else icon "ArrowDownLeft")
      ⊕ elem "div" (
          elem "div" (
            elem "span" (text (ellipsis 10 6 tx.tx_hash))
            ⊕ when (text_eq tx.status (codes "finalized")) (elem "span" nothing)
            ⊕ when (text_eq tx.status (codes "orphaned")) (elem "span" nothing))
          ⊕ elem "div" (
              (if sender then say "To: " else say "From: ")
              ⊕ counterparty_view (present (if sender then tx.to_addr else tx.from_addr))))
      ⊕ elem "div" (
          elem "div" (
            (if sender then say "-" else say "+")
            ⊕ text (short_value js tx.value chain)
            ⊕ say " "
            ⊕ say (currency chain))
          ⊕ elem "div" (if sender then say "OUT" else say "IN"))
      ⊕ icon "ArrowRight")

abbrev rows_view : (Transaction → Html) → List Transaction → Html
rows_view row [] =
    elem "div" (icon "ArrowUpDown" ⊕ elem "p" (say "No transactions found matching this filter."))
rows_view row (tx ∷ txs) = elem "div" (each row (tx ∷ txs))

-- `AddressTransactionList`, whose state is the direction
unfoldable pub address_transaction_list :
    Runtime → Chain → Text → Direction → List Transaction → Html
unfolding filtered in_count out_count
address_transaction_list js chain address direction txs = elem "div" (
    elem "div" (
      elem "div" (
        button false (say "All (" ⊕ text (show (length txs)) ⊕ say ")")
        ⊕ button false
            (icon "ArrowDownLeft" ⊕ say "In (" ⊕ text (show (in_count address txs)) ⊕ say ")")
        ⊕ button false
            (icon "ArrowUpRight" ⊕ say "Out (" ⊕ text (show (out_count address txs)) ⊕ say ")"))
      ⊕ button false (icon "Download" ⊕ say "Export CSV"))
    ⊕ rows_view (tx_row js chain address) (filtered direction address txs))
