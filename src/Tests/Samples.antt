-- ===== src/Tests/Samples.antt =====
-- Sample data: a runtime whose numbers are naturals, and some transactions.
use btc_eth_indexer.Prelude.{
  ℕ, ◌*◌, ◌/◌, none, some, codes, show, ltb, leb, ◌==◌, ℤ, pos, negsuc, List, [], ◌∷◌, length,
  is_empty, false, Text,
}
use btc_eth_indexer.Types.{eth, Block, Transaction}
use btc_eth_indexer.Runtime.{Runtime}

abbrev big_part : ℤ → ℕ
big_part (pos n) = n
big_part (negsuc n) = 0

abbrev pub whole_numbers : Runtime
whole_numbers = record {
  Num = ℕ;
  ratio = λ a b. a / b;
  of_big = big_part;
  to_number = λ s. 0;
  parse_int = λ s. 0;
  parse_float = λ s. 0;
  div = λ a b. a / b;
  mul = λ a b. a * b;
  lt = ltb;
  ge = λ a b. leb b a;
  round = λ a. a;
  falsy = λ a. a == 0;
  to_string = show;
  to_fixed = λ d a. show a;
  to_exponential = λ d a. show a;
  to_locale_string = show;
  currency = show;
  distance_to_now = λ t. codes "just now";
  date_text = λ t. t;
  time_text = λ t. t;
  get_time = length;
  Json = Text;
  json_parse = λ s. none;
  is_object = λ o. false;
  is_falsy_json = λ o. is_empty o;
  json_string = λ s. s;
  stringify = λ s. s;
  atob = λ s. none;
  decode_utf8 = λ s. s;
}

abbrev pub payment : Transaction
payment = record {
  chain_id = eth;
  block_height = 19000000;
  block_hash = codes "0xbb";
  tx_hash = codes "0xaa";
  tx_index = some 0;
  from_addr = some (codes "0xAb");
  to_addr = some (codes "0xcd");
  value = codes "1000000000000000000";
  fee = codes "21000";
  gas_used = some 21000;
  status = codes "finalized";
  raw_data = none;
}

-- a transfer of an address to itself
abbrev pub self_payment : Transaction
self_payment = record payment { tx_hash = codes "0xee"; to_addr = some (codes "0xab") }

abbrev pub payments : List Transaction
payments = payment ∷ self_payment ∷ []

abbrev pub block_seven : Block
block_seven = record {
  chain_id = eth;
  height = 7;
  hash = codes "0xb7";
  parent_hash = codes "0xb6";
  timestamp = codes "2024-01-01T00:00:00Z";
  status = codes "finalized";
  raw_data = some (codes "e30=");
}
