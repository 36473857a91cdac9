-- ===== src/Tests/Lists.antt =====
-- Lists of transactions, and the labels of addresses.
use btc_eth_indexer.Prelude.{
  ◌+◌, [], ◌∷◌, none, Text, codes, length, map, split_on, to_lower, ◌≡◌, ◌≢◌, refl, arith,
}
use btc_eth_indexer.AddressList.{in_txs, out_txs, filtered, in_count, out_count}
use btc_eth_indexer.AddressList.Filters.{counts_against_rows, self_count, stranger_count}
use btc_eth_indexer.Csv.{csv_content, headers, row_fields}
use btc_eth_indexer.Csv.RoundTrip.{IsPlain, csv_content_round_trip}
use btc_eth_indexer.Labels.Known.{AddressLabel, get_address_label}
use btc_eth_indexer.Labels.Reachable.{genesis_label_unreachable}
use btc_eth_indexer.Labels.Entities.{EntityLabel, exchange}
use btc_eth_indexer.Tests.Samples.{payment, self_payment, payments}

counts_against_rows_example :
    (out_count (codes "0xAB") payments ≡ length (filtered out_txs (codes "0xAB") payments))
    × (in_count (codes "0xAB") payments + stranger_count (codes "0xAB") payments
        ≡ length (filtered in_txs (codes "0xAB") payments) + self_count (codes "0xAB") payments)
counts_against_rows_example = counts_against_rows (codes "0xAB") payments

-- the badge says one, and the filter shows nothing
in_badge_wrong :
    (in_count (codes "0xAB") payments ≡ 1) × (filtered in_txs (codes "0xAB") payments ≡ [])
unfolding in_count filtered to_lower
in_badge_wrong = (refl, refl)

payment-IsPlain : IsPlain payment
payment-IsPlain = omega arith

self_payment-IsPlain : IsPlain self_payment
self_payment-IsPlain = omega arith

csv_content_round_trip_example :
    map (split_on 44) (split_on 10 (csv_content payments))
    ≡ headers ∷ row_fields payment ∷ row_fields self_payment ∷ []
csv_content_round_trip_example =
    csv_content_round_trip payments (payment-IsPlain, (self_payment-IsPlain, tt))

abbrev usdt : AddressLabel
usdt = record { name = codes "Tether: USDT"; type = codes "contract" }

genesis_label_unreachable_example :
    ◌≢◌ {A = Text} (codes "Tether: USDT") (codes "Satoshi's Genesis")
unfolding get_address_label
genesis_label_unreachable_example =
    genesis_label_unreachable (codes "0xDAC17F958D2EE523A2206206994597C13D831EC7") usdt refl

genesis_example : get_address_label (codes "1A1zP1eP5QGefi2DMPTfTL5SLmv7DivfNa") ≡ none
unfolding get_address_label
genesis_example = refl

abbrev binance : EntityLabel
binance = record { name = codes "Binance"; type = exchange; logo = none }
