-- ===== src/Api.antt =====
-- web/src/lib/api.ts: the requests of the client. A request is the path below the base address and
-- its query parameters; axios leaves out a parameter that is undefined.
pub mod Agreement
use btc_eth_indexer.Prelude.{
  ℕ, String, Bool, true, false, List, [], ◌∷◌, ◌++◌, Option, none, some, Text, codes, show,
  is_empty, if◌then◌else◌,
}
use btc_eth_indexer.Types.{Chain, btc, eth, chain_text}

pub record Request : Type 0 where
  -- the parts of the path, in order
  pub path : Text
  pub params : List (Text × Text)

abbrev param : String → Text → List (Text × Text) → List (Text × Text)
param key value rest = (codes key, value) ∷ rest

abbrev optional : String → Option Text → List (Text × Text) → List (Text × Text)
optional key none rest = rest
optional key (some value) rest = (codes key, value) ∷ rest

abbrev optional_number : String → Option ℕ → List (Text × Text) → List (Text × Text)
optional_number key none rest = rest
optional_number key (some n) rest = (codes key, show n) ∷ rest

abbrev slash : Text → Text
slash s = codes "/" ++ s

-- `localStorage.getItem("api_key")`, when there is a window, in the header X-API-Key
unfoldable pub api_key_header : Bool → Option Text → Text
api_key_header has_window stored = elim (if has_window then stored else none) [
  | none ↦ codes "test"
  | some k ↦ if is_empty k then codes "test" else k
]

-- A call of the client.
pub data Call : Type 0 where
  get_health : Call
  get_latest_block : Chain → Call
  get_block : Chain → Text → Call
  get_transaction : Chain → Text → Call
  get_address_txs : Chain → Text → Option Text → ℕ → Call
  get_events : Option Text → Option ℕ → Option ℕ → Option Text → Call
  get_latest_txs : Chain → ℕ → Call
  get_stats : Chain → Call
  get_block_txs : Chain → Text → Option Text → ℕ → Call
  get_blocks_range : Chain → ℕ → ℕ → Call
  get_address_balance : Chain → Text → Call
  get_contract : Chain → Text → Call
  get_address_stats : Chain → Text → Call
  get_token_balances : Text → Text → Call
  get_token_transfers : Text → Text → ℕ → ℕ → Call
  get_pending_txs : Chain → Call
  search : Text → Call

-- the path of a call; the query string of `getLatestBlock` is among the parameters
unfoldable pub path_of : Call → Text
path_of get_health = codes "/health"
path_of (get_latest_block c) = codes "/blocks/latest"
path_of (get_block c id) = codes "/blocks/" ++ (chain_text c ++ slash id)
path_of (get_transaction c hash) = codes "/tx/" ++ (chain_text c ++ slash hash)
path_of (get_address_txs c a cursor limit) =
    codes "/address/" ++ (chain_text c ++ slash (a ++ codes "/txs"))
path_of (get_events topic0 from to cursor) = codes "/events"
path_of (get_latest_txs c limit) = codes "/txs/latest"
path_of (get_stats c) = codes "/stats/" ++ chain_text c
path_of (get_block_txs c id cursor limit) =
    codes "/blocks/" ++ (chain_text c ++ slash (id ++ codes "/txs"))
path_of (get_blocks_range c from to) = codes "/blocks/" ++ (chain_text c ++ codes "/range")
path_of (get_address_balance c a) = codes "/balance/" ++ (chain_text c ++ slash a)
path_of (get_contract c a) = codes "/contract/" ++ (chain_text c ++ slash a)
path_of (get_address_stats c a) = codes "/stats/address/" ++ (chain_text c ++ slash a)
path_of (get_token_balances c a) = codes "/tokens/" ++ (c ++ slash (a ++ codes "/balances"))
path_of (get_token_transfers c a limit offset) =
    codes "/tokens/" ++ (c ++ slash (a ++ codes "/transfers"))
path_of (get_pending_txs c) = codes "/txs/pending/" ++ chain_text c
path_of (search q) = codes "/search"

unfoldable pub params_of : Call → List (Text × Text)
params_of (get_latest_block c) = param "chain" (chain_text c) []
params_of (get_address_txs c a cursor limit) =
    optional "cursor" cursor (param "limit" (show limit) [])
params_of (get_events topic0 from to cursor) = param "chain" (codes "eth") (
    optional "topic0" topic0 (
      optional_number "from_height" from
        (optional_number "to_height" to (optional "cursor" cursor []))))
params_of (get_latest_txs c limit) = param "chain" (chain_text c) (param "limit" (show limit) [])
params_of (get_block_txs c id cursor limit) =
    optional "cursor" cursor (param "limit" (show limit) [])
params_of (get_blocks_range c from to) = param "from" (show from) (param "to" (show to) [])
params_of (get_token_transfers c a limit offset) =
    param "limit" (show limit) (param "offset" (show offset) [])
params_of (search q) = param "q" q []
params_of _ = []

-- the request of a call
unfoldable pub request_of : Call → Request
unfolding path_of params_of
request_of call = record { path = path_of call; params = params_of call }
