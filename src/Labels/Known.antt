-- ===== src/Labels/Known.antt =====
-- web/src/lib/known-addresses.ts
use btc_eth_indexer.Prelude.{
  String, List, [], ◌∷◌, Option, Text, codes, text_eq, to_lower, if◌then◌else◌,
}
use btc_eth_indexer.Labels.Lookup.{lookup}

pub record AddressLabel : Type 0 where
  pub name : Text
  pub type : Text

abbrev entry : String → String → String → Text × AddressLabel
entry address name type = (codes address, record { name = codes name; type = codes type })

-- `KNOWN_ADDRESSES`
unfoldable pub known_addresses : List (Text × AddressLabel)
known_addresses =
    entry "0xdac17f958d2ee523a2206206994597c13d831ec7" "Tether: USDT" "contract"
    ∷ entry "0xa0b86991c6218b36c1d19d4a2e9eb0ce3606eb48" "Circle: USDC" "contract"
    ∷ entry "0x28c6c06298d514db089934071355e5743bf21d60" "Binance Hot Wallet" "exchange"
    ∷ entry "0x21a31ee1afc51d94c2efccaa2092ad1028285549" "Binance Hot Wallet 2" "exchange"
    ∷ entry "0x47ac0fb4f2d84898e4d9e7b4dab3c24507a6d503" "Binance Cold Wallet" "exchange"
    ∷ entry "0x974caa59e49682cda0ad2bbe82983419a2ecc400" "Coinbase Prime" "exchange"
    ∷ entry "0x503828976d22510aad0201ac7ec88293211d23da" "Coinbase" "exchange"
    ∷ entry "0xbe0eb53f46cd790cd13851d5eff43d12404d33e8" "Binance 7" "exchange"
    ∷ entry "0xf977814e90da44bfa03b6295a0616a897441acec" "Binance 8" "exchange"
    ∷ entry "0x5a52e96bacdabb82fd05763e25335261b270efcb" "Binance 9" "exchange"
    ∷ entry "0xc02aaa39b223fe8d0a0e5c4f27ead9083c756cc2" "WETH" "contract"
    ∷ entry "0x6b175474e89094c44da98b954eedeac495271d0f" "Dai Stablecoin" "contract"
    ∷ entry "0x1f9840a85d5af5bf1d1762f925bdaddc4201f984" "Uniswap" "contract"
    ∷ entry "0x7a250d5630b4cf539739df2c5dacb4c659f2488d" "Uniswap V2 Router" "contract"
    ∷ entry "0x7f268357a8c2552623316e2562d90e642bb538e5" "OpenSea" "contract"
    ∷ entry "1A1zP1eP5QGefi2DMPTfTL5SLmv7DivfNa" "Satoshi's Genesis" "whale"
    ∷ entry "bc1qgdjqv0av3q56jvd82tkdjpy7gdp9ut8tlqmgrpmv24sq90ecnvqqjwvw97" "Bitfinex Cold"
        "exchange"
    ∷ []

-- `getAddressLabel`
unfoldable pub get_address_label : Text → Option AddressLabel
unfolding known_addresses lookup to_lower
get_address_label address = lookup (to_lower address) known_addresses

-- `getAddressTypeColor`
unfoldable pub get_address_type_color : Text → Text
get_address_type_color type =
    if text_eq type (codes "exchange")
    then codes "bg-blue-500/20 text-blue-400 border-blue-500/30"
    else if text_eq type (codes "contract")
    then codes "bg-purple-500/20 text-purple-400 border-purple-500/30"
    else if text_eq type (codes "whale")
    then codes "bg-yellow-500/20 text-yellow-400 border-yellow-500/30"
    else if text_eq type (codes "bridge")
    then codes "bg-green-500/20 text-green-400 border-green-500/30"
    else codes "bg-gray-500/20 text-gray-400 border-gray-500/30"
