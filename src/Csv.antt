-- ===== src/Csv.antt =====
-- web/src/hooks/use-csv-export.ts: a list of transactions as a file of comma-separated values. The
-- download through a link of the document is the file that is returned.
pub mod RoundTrip
use btc_eth_indexer.Prelude.{
  List, [], ◌∷◌, ◌++◌, Option, none, some, Text, codes, show, join_with, map,
}
use btc_eth_indexer.Types.{Transaction}

-- what `join` makes of a field that is absent
abbrev pub or_empty : Option Text → Text
or_empty none = []
or_empty (some s) = s

unfoldable pub headers : List Text
headers =
    codes "TxHash"
    ∷ codes "BlockHeight"
    ∷ codes "From"
    ∷ codes "To"
    ∷ codes "Value"
    ∷ codes "Fee"
    ∷ codes "Status"
    ∷ []

unfoldable pub row_fields : Transaction → List Text
row_fields tx =
    tx.tx_hash
    ∷ show tx.block_height
    ∷ or_empty tx.from_addr
    ∷ or_empty tx.to_addr
    ∷ tx.value
    ∷ tx.fee
    ∷ tx.status
    ∷ []

abbrev pub join_fields : List Text → Text
join_fields = join_with b','

unfoldable pub csv_content : List Transaction → Text
unfolding headers row_fields
csv_content txs = join_with 10 (join_fields headers ∷ map (λ tx. join_fields (row_fields tx)) txs)

pub record CsvFile : Type 0 where
  pub filename : Text
  pub content : Text

-- `handleExport` of `useCsvExport(data, filename)`
unfoldable pub use_csv_export : List Transaction → Text → Option CsvFile
unfolding csv_content
use_csv_export [] filename = none
use_csv_export (tx ∷ txs) filename =
    some (record { filename = filename ++ codes ".csv"; content = csv_content (tx ∷ txs) })
