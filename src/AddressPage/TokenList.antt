-- ===== src/AddressPage/TokenList.antt =====
-- web/src/features/address/components/token-list.tsx
use btc_eth_indexer.Prelude.{
  List, [], ◌∷◌, Option, none, some, Text, if◌then◌else◌, ◌≡◌, refl, arith,
}
use btc_eth_indexer.Html.{Html, text, icon, elem, ◌⊕◌, say, each, links}
use btc_eth_indexer.Query.{Query}

pub record TokenBalance : Type 0 where
  pub token_address : Text
  pub balance : Text

abbrev balance_row : TokenBalance → Html
balance_row t =
    elem "TableRow" (elem "TableCell" (text t.token_address) ⊕ elem "TableCell" (text t.balance))

abbrev no_tokens : Html
no_tokens =
    elem "Card" (elem "CardTitle" (say "Token Holdings") ⊕ elem "div" (say "No tokens found."))

abbrev balances_view : Option (List TokenBalance) → Html
balances_view none = no_tokens
balances_view (some []) = no_tokens
balances_view (some (t ∷ ts)) = elem "Card" (
    elem "CardTitle" (say "Token Holdings")
    ⊕ elem "Table" (
        elem "TableHeader" (say "Token Address" ⊕ say "Balance (Raw)")
        ⊕ elem "TableBody" (each balance_row (t ∷ ts))))

-- `TokenList`
unfoldable pub token_list : Query (List TokenBalance) → Html
token_list q = if q.is_loading then icon "Loader2" else balances_view q.data'

links-balance_rows : (ts : List TokenBalance) → links (each balance_row ts) ≡ []
unfolding links each
links-balance_rows [] = refl
links-balance_rows (t ∷ ts) = links-balance_rows ts

links-balances_view : (o : Option (List TokenBalance)) → links (balances_view o) ≡ []
unfolding links each
links-balances_view none = refl
links-balances_view (some []) = refl
links-balances_view (some (t ∷ ts)) = links-balance_rows ts

pub links-token_list : (q : Query (List TokenBalance)) → links (token_list q) ≡ []
unfolding token_list links
links-token_list q = ground (arith, links-balances_view q.data')
