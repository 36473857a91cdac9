-- ===== src/Tests/Formats.antt =====
-- Values and hashes.
use btc_eth_indexer.Prelude.{
  suc, ◌%◌, some, split_on, is_digit, Text, codes, length, ◌≡◌, refl, arith,
}
use btc_eth_indexer.Types.{eth}
use btc_eth_indexer.Api.{Call, path_of}
use btc_eth_indexer.Api.Agreement.{handler_for, route-path_of}
use btc_eth_indexer.Server.Routes.{route}
use btc_eth_indexer.AnimatedNumber.{with_separator}
use btc_eth_indexer.AnimatedNumber.Grouping.{IsGrouping, with_separator-IsGrouping}
use btc_eth_indexer.Format.{Scalar, str, shorten_hash}
use btc_eth_indexer.Tests.Samples.{whole_numbers}

abbrev hash : Text
hash = codes "0xdac17f958d2ee523a2206206994597c13d831ec7"

shorten_hash_test : shorten_hash hash 6 4 ≡ codes "0xdac1...1ec7"
unfolding shorten_hash
shorten_hash_test = refl

abbrev fraction : Scalar whole_numbers
fraction = str (codes "1.5")

abbrev satoshis : Scalar whole_numbers
satoshis = str (codes "300000000")

route-path_of_example :
    route (path_of (Call.get_block eth (codes "0xb7")))
    ≡ some (handler_for (Call.get_block eth (codes "0xb7")))
route-path_of_example =
    route-path_of (Call.get_block eth (codes "0xb7"))
      (record { filled = refl; slash_free = omega arith }, λ e. ground arith)

with_separator-IsGrouping_example :
    IsGrouping
      (codes "19000000")
      (suc (length (codes "9000000") % 3))
      (split_on b',' (with_separator (codes ",") (codes "19000000")))
unfolding is_digit
with_separator-IsGrouping_example = with_separator-IsGrouping b'1' (codes "9000000") refl
