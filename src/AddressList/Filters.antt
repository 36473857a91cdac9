-- ===== src/AddressList/Filters.antt =====
-- The directions and their counts.
use btc_eth_indexer.Prelude.{
  ℕ, ◌+◌, not, ◌&&◌, List, [], ◌∷◌, Text, length, filter, ◌≡◌, refl, arith,
}
use btc_eth_indexer.Types.{Transaction}
use btc_eth_indexer.AddressList.{
  in_txs, out_txs, is_sender, is_receiver, filtered, in_count, out_count,
}

-- transactions from the address to itself, and those that name it on neither side
abbrev pub self_count : Text → List Transaction → ℕ
self_count address txs = length (filter (λ tx. is_sender address tx && is_receiver address tx) txs)

abbrev pub stranger_count : Text → List Transaction → ℕ
stranger_count address txs =
    length (filter (λ tx. not (is_sender address tx) && not (is_receiver address tx)) txs)

-- The badges against the rows: "Out" counts the rows of its filter, and "In" counts them but for
-- the transfers of the address to itself, which it adds, and those that name it on neither side,
-- which it leaves out.
pub counts_against_rows :
    (address : Text) (txs : List Transaction)
    → (out_count address txs ≡ length (filtered out_txs address txs))
      × (in_count address txs + stranger_count address txs
          ≡ length (filtered in_txs address txs) + self_count address txs)
unfolding filtered in_count out_count
counts_against_rows address [] = (refl, refl)
counts_against_rows address (tx ∷ txs) = (refl, ground (arith, (counts_against_rows address txs).1))
