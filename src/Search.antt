-- ===== src/Search.antt =====
-- web/src/components/shared/search-input.tsx: the search box. `handleSearch` runs up to the call
-- of the API in `handle_search` and from its answer on in `finish`; what the user does meanwhile
-- comes between the two.
pub mod Routing
pub mod Answers
pub mod Progress
use btc_eth_indexer.Prelude.{
  ℕ, String, Bool, true, false, not, ◌&&◌, ◌||◌, List, [], ◌∷◌, ◌++◌, Option, none, some, Text,
  codes, is_empty, length, starts_with, trim, is_numeric, ltb, leb, ◌==◌, if◌then◌else◌, Try, ok,
  throw, ◌>>=◌, catch,
}
use btc_eth_indexer.Types.{Chain, btc, eth, chain_text}
use btc_eth_indexer.Json.{Json, prop, truthy, is_text, array_head, is_filled_array, to_text}
use btc_eth_indexer.Pages.{block_path, tx_path, address_path}

-- the state hooks of `SearchInput`
pub record SearchInput : Type 0 where
  pub search : Text
  pub is_searching : Bool
  pub error : Option Text

-- `onChange` of the input
unfoldable pub on_change : Text → SearchInput → SearchInput
on_change value s = record s { search = value; error = none }

abbrev pub is_eth_address : Text → Bool
is_eth_address term = starts_with term (codes "0x") && length term == 42

abbrev pub is_eth_hash : Text → Bool
is_eth_hash term = starts_with term (codes "0x") && length term == 66

abbrev pub is_btc_address : Text → Bool
is_btc_address term =
    starts_with term (codes "1") || starts_with term (codes "3") || starts_with term (codes "bc1")

abbrev pub is_number : Text → Bool
is_number term = is_numeric term && ltb (length term) 20

-- the route that needs no answer of the API, or `none`
unfoldable pub smart_route : Chain → Text → Option Text
smart_route chain term =
    if is_eth_address term
    then some (address_path (codes "eth") term)
    else if is_btc_address term
    then some (address_path (codes "btc") term)
    else if is_number term
    then some (block_path (chain_text chain) term)
    else none

-- the three exits behind the request: with a route, or from one of the two places that return
pub data Verdict : Type 0 where
  push : Text → Verdict
  no_results search_failed : Verdict

-- "looks like a hash", before both places that return
unfoldable pub fallback : Chain → Text → Verdict → Verdict
fallback chain term otherwise =
    if is_eth_hash term || leb 64 (length term)
    then push (tx_path (chain_text chain) term)
    else otherwise

-- `route = /folder/${chain}/${res.data.key}`
abbrev pub route_to : (Text → Text → Text) → Chain → String → Json → Try Verdict
route_to path chain key res = do
  data' ← prop "data" res
  v ← prop key data'
  ok (push (path (chain_text chain) (to_text v)))

abbrev pub route_to_token : Json → Try Verdict
route_to_token found = do
  token ← array_head found
  chain ← prop "ChainID" token
  addr ← prop "Address" token
  ok (push (address_path (to_text chain) (to_text addr)))

abbrev pub route_of_rest : Chain → Text → Json → Json → Try Verdict
route_of_rest chain term kind found =
    if is_text kind "token_list" && is_filled_array found
    then route_to_token found
    else ok (fallback chain term no_results)

abbrev pub route_of_kind : Chain → Text → Json → Json → Try Verdict
route_of_kind chain term res kind =
    if is_text kind "block"
    then route_to block_path chain "Hash" res
    else if is_text kind "tx"
    then route_to tx_path chain "TxHash" res
    else if is_text kind "address"
    then route_to address_path chain "Address" res
    else prop "data" res >>= route_of_rest chain term kind

-- the answer of the API, inside the `try`
unfoldable pub route_of_answer : Chain → Text → Json → Try Verdict
unfolding fallback
route_of_answer chain term res =
    if truthy res then prop "type" res >>= route_of_kind chain term res else ok (push [])

-- the `try` and its `catch`, for a request that may fail
unfoldable pub verdict : Chain → Text → Try Json → Verdict
unfolding route_of_answer
verdict chain term answer =
    catch (answer >>= route_of_answer chain term) (fallback chain term search_failed)

-- the setters of the state hooks
abbrev set_search : Text → SearchInput → SearchInput
set_search value s = record s { search = value }

abbrev set_is_searching : Bool → SearchInput → SearchInput
set_is_searching value s = record s { is_searching = value }

abbrev set_error : Option Text → SearchInput → SearchInput
set_error value s = record s { error = value }

-- the end of `handleSearch`: the route is pushed, and the box is cleared
abbrev leave : SearchInput → SearchInput
leave s = set_is_searching false (set_search [] s)

-- the return inside the `try`
abbrev give_up : SearchInput → SearchInput
give_up s = set_is_searching false (set_error (some (codes "No results found")) s)

-- the return inside the `catch`
abbrev fail : SearchInput → SearchInput
fail s = set_is_searching false (set_error (some (codes "Search failed")) s)

-- each exit with its own calls, and the route that is pushed
unfoldable pub conclude : Verdict → SearchInput → SearchInput × Option Text
conclude (push route) s = (leave s, some route)
conclude no_results s = (give_up s, none)
conclude search_failed s = (fail s, none)

-- `handleSearch` from the answer of the API on
unfoldable pub finish : Chain → Text → Try Json → SearchInput → SearchInput × Option Text
unfolding verdict conclude
finish chain term answer s = conclude (verdict chain term answer) s

-- where a submission goes: nowhere, to a route, or to the API with a term
pub data Submission : Type 0 where
  ignored : Submission
  routed : Text → Submission
  asked : Text → Submission

abbrev submit_term : Option Text → Text → SearchInput → SearchInput × Submission
submit_term (some route) term s = (leave (set_is_searching true s), routed route)
submit_term none term s = (set_is_searching true s, asked term)

-- `handleSearch` up to its return or to the call of the API
unfoldable pub handle_search : Chain → SearchInput → SearchInput × Submission
unfolding smart_route
handle_search chain s =
    let quiet = set_error none s in
    let term = trim s.search in
    if is_empty term then (quiet, ignored) else submit_term (smart_route chain term) term quiet
