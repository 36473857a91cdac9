-- ===== src/Tests/Decoding.antt =====
-- The transfer of a token, decoded with the ABI of its contract.
use btc_eth_indexer.Prelude.{ℕ, true, false, [], ◌∷◌, some, Text, codes, show, ◌≡◌, refl, arith}
use btc_eth_indexer.Pollers.Decoder.{
  Argument, address_ty, uint_ty, Geth, stringer, AbiEvent, Decoder, Log, panicked, decode_log,
}
use btc_eth_indexer.Pollers.Panic.{decode_log-panics}

-- addresses and hashes as numbers
abbrev numbers : Geth ℕ ℕ
numbers = record {
  address_hex = show;
  hash_hex = show;
  bytes_to_address = λ n. n;
  big = λ n. n;
  bytes_hex = λ bs. codes "2a";
}

abbrev from_arg : Argument
from_arg = record { name = codes "from"; indexed = true; type' = address_ty }

abbrev to_arg : Argument
to_arg = record { name = codes "to"; indexed = true; type' = address_ty }

abbrev value_arg : Argument
value_arg = record { name = codes "value"; indexed = false; type' = uint_ty }

-- the event of ERC-20
abbrev transfer : AbiEvent ℕ ℕ Text
transfer = record {
  name = codes "Transfer";
  inputs = from_arg ∷ to_arg ∷ value_arg ∷ [];
  unpack_values = λ bs. some (stringer (codes "42") ∷ []);
}

abbrev erc20 : Decoder ℕ ℕ Text
erc20 = record { abis = λ a. some (λ topic. some transfer) }

abbrev transfer_log : Log ℕ ℕ
transfer_log = record { address = 7; topics = 100 ∷ 1 ∷ 2 ∷ []; data' = 42 ∷ [] }

decode_log-panics_example : decode_log numbers erc20 transfer_log ≡ panicked
decode_log-panics_example =
    decode_log-panics numbers erc20 transfer_log 100 (1 ∷ 2 ∷ []) (λ topic. some transfer) transfer
      (stringer (codes "42") ∷ []) [] from_arg (to_arg ∷ value_arg ∷ []) refl refl refl refl refl
      refl refl refl (omega arith)
