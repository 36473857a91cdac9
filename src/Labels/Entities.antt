-- ===== src/Labels/Entities.antt =====
-- web/src/lib/entity-labels.ts
use btc_eth_indexer.Prelude.{String, List, [], ◌∷◌, ◌++◌, Option, none, some, Text, codes, to_lower}
use btc_eth_indexer.Types.{Chain, btc, eth}
use btc_eth_indexer.Labels.Lookup.{lookup}

-- the `type` of an `EntityLabel`
pub data EntityType : Type 0 where
  exchange defi nft whale contract bridge unknown : EntityType

pub record EntityLabel : Type 0 where
  pub name : Text
  pub type : EntityType
  pub logo : Option Text

abbrev entry : String → String → EntityType → Text × EntityLabel
entry address name type = (codes address, record { name = codes name; type = type; logo = none })

-- `ETH_LABELS`
unfoldable pub eth_labels : List (Text × EntityLabel)
eth_labels =
    entry "0x28c6c06298d514db089934071355e5743bf21d60" "Binance" exchange
    ∷ entry "0x21a31ee1afc51d94c2efccaa2092ad1028285549" "Binance" exchange
    ∷ entry "0xdfd5293d8e347dfe59e90efd55b2956a1343963d" "Binance" exchange
    ∷ entry "0x56eddb7aa87536c09ccc2793473599fd21a8b17f" "Binance" exchange
    ∷ entry "0x3f5ce5fbfe3e9af3971dd833d26ba9b5c936f0be" "Binance" exchange
    ∷ entry "0xd551234ae421e3bcba99a0da6d736074f22192ff" "Binance" exchange
    ∷ entry "0x4e9ce36e442e55ecd9025b9a6e0d88485d628a67" "Binance US" exchange
    ∷ entry "0xa9d1e08c7793af67e9d92fe308d5697fb81d3e43" "Coinbase" exchange
    ∷ entry "0x71660c4005ba85c37ccec55d0c4493e66fe775d3" "Coinbase" exchange
    ∷ entry "0x503828976d22510aad0201ac7ec88293211d23da" "Coinbase" exchange
    ∷ entry "0xddfabcdc4d8ffc6d5beaf154f18b778f892a0740" "Coinbase" exchange
    ∷ entry "0x3cd751e6b0078be393132286c442345e5dc49699" "Coinbase" exchange
    ∷ entry "0xb5d85cbf7cb3ee0d56b3bb207d5fc4b82f43f511" "Coinbase" exchange
    ∷ entry "0xeb2629a2734e272bcc07bda959863f316f4bd4cf" "Coinbase" exchange
    ∷ entry "0x02466e547bfdab679fc49e96bbfc62b9747d997c" "Coinbase" exchange
    ∷ entry "0x6cc5f688a315f3dc28a7781717a9a798a59fda7b" "OKX" exchange
    ∷ entry "0x236f9f97e0e62388479bf9e5ba4889e46b0273c3" "OKX" exchange
    ∷ entry "0x75e89d5979e4f6fba9f97c104c2f0afb3f1dcb88" "MEXC" exchange
    ∷ entry "0x2910543af39aba0cd09dbb2d50200b3e800a63d2" "Kraken" exchange
    ∷ entry "0x0a869d79a7052c7f1b55a8ebabbea3420f0d1e13" "Kraken" exchange
    ∷ entry "0xe94b04a0fed112f3664e45adb2b8915693dd5ff3" "Bittrex" exchange
    ∷ entry "0xfbb1b73c4f0bda4f67dca266ce6ef42f520fbb98" "Bittrex" exchange
    ∷ entry "0x1151314c646ce4e0efd76d1af4760ae66a9fe30f" "Bitfinex" exchange
    ∷ entry "0x742d35cc6634c0532925a3b844bc454e4438f44e" "Bitfinex" exchange
    ∷ entry "0x876eabf441b2ee5b5b0554fd502a8e0600950cfa" "Bitfinex" exchange
    ∷ entry "0xdc76cd25977e0a5ae17155770273ad58648900d3" "Bitfinex" exchange
    ∷ entry "0x4ddc2d193948926d02f9b1fe9e1daa0718270ed5" "Compound cETH" defi
    ∷ entry "0x7a250d5630b4cf539739df2c5dacb4c659f2488d" "Uniswap V2 Router" defi
    ∷ entry "0x68b3465833fb72a70ecdf485e0e4c7bd8665fc45" "Uniswap V3 Router" defi
    ∷ entry "0xe592427a0aece92de3edee1f18e0157c05861564" "Uniswap V3 Router" defi
    ∷ entry "0x1111111254eeb25477b68fb85ed929f73a960582" "1inch Router" defi
    ∷ entry "0xdef1c0ded9bec7f1a1670819833240f027b25eff" "0x Exchange" defi
    ∷ entry "0xd9e1ce17f2641f24ae83637ab66a2cca9c378b9f" "SushiSwap Router" defi
    ∷ entry "0x881d40237659c251811cec9c364ef91dc08d300c" "Metamask Swap" defi
    ∷ entry "0x00000000006c3852cbef3e08e8df289169ede581" "OpenSea" nft
    ∷ entry "0x00000000000000adc04c56bf30ac9d3c0aaf14dc" "Seaport" nft
    ∷ entry "0x40ec5b33f54e0e8a33a975908c5ba1c14e5bbbdf" "Polygon Bridge" bridge
    ∷ entry "0xa0c68c638235ee32657e8f720a23cec1bfc77c77" "Polygon Bridge" bridge
    ∷ entry "0x99c9fc46f92e8a1c0dec1b1747d010903e884be1" "Optimism Bridge" bridge
    ∷ entry "0x4dbd4fc535ac27206064b68ffcf827b0a60bab3f" "Arbitrum Bridge" bridge
    ∷ entry "0xdac17f958d2ee523a2206206994597c13d831ec7" "Tether Treasury" contract
    ∷ entry "0xa0b86991c6218b36c1d19d4a2e9eb0ce3606eb48" "USDC" contract
    ∷ entry "0x6b175474e89094c44da98b954eedeac495271d0f" "DAI" contract
    ∷ []

-- `BTC_LABELS`
unfoldable pub btc_labels : List (Text × EntityLabel)
btc_labels =
    entry "bc1qgdjqv0av3q56jvd82tkdjpy7gdp9ut8tlqmgrpmv24sq90ecnvqqjwvw97" "Bitfinex" exchange
    ∷ entry "bc1qm34lsc65zpw79lxes69zkqmk6ee3ewf0j77s3h" "Binance" exchange
    ∷ entry "34xp4vRoCGJym3xR7yCVPFHoCNxv4Twseo" "Binance" exchange
    ∷ entry "3M219KR5vEneNb47ewrPfWyb5jQ2DjxRP6" "Binance" exchange
    ∷ entry "bc1qx9t2l3pyny2spqpqlye8svce70nppwtaxwdrp4" "Binance" exchange
    ∷ []

-- `a || b` of two lookups
abbrev or_else : Option EntityLabel → Option EntityLabel → Option EntityLabel
or_else (some l) other = some l
or_else none other = other

-- `getEntityLabel`
unfoldable pub get_entity_label : Text → Chain → Option EntityLabel
unfolding eth_labels btc_labels lookup to_lower
get_entity_label address eth = lookup (to_lower address) eth_labels
get_entity_label address btc =
    or_else (lookup address btc_labels) (lookup (to_lower address) btc_labels)

-- `getEntityBadgeColor`
unfoldable pub get_entity_badge_color : EntityType → Text
get_entity_badge_color exchange = codes "bg-blue-500/20 text-blue-400 border-blue-500/30"
get_entity_badge_color defi = codes "bg-purple-500/20 text-purple-400 border-purple-500/30"
get_entity_badge_color nft = codes "bg-pink-500/20 text-pink-400 border-pink-500/30"
get_entity_badge_color whale = codes "bg-yellow-500/20 text-yellow-400 border-yellow-500/30"
get_entity_badge_color contract = codes "bg-green-500/20 text-green-400 border-green-500/30"
get_entity_badge_color bridge = codes "bg-cyan-500/20 text-cyan-400 border-cyan-500/30"
get_entity_badge_color unknown = codes "bg-gray-500/20 text-gray-400 border-gray-500/30"

-- `getEntityIcon`
unfoldable pub get_entity_icon : EntityType → Text
get_entity_icon exchange = codes "🏦"
get_entity_icon defi = codes "💱"
get_entity_icon nft = codes "🖼" ++ 0xfe0f ∷ []
get_entity_icon whale = codes "🐋"
get_entity_icon contract = codes "📜"
get_entity_icon bridge = codes "🌉"
get_entity_icon unknown = codes "❓"
