-- ===== src/Server/Routes.antt =====
-- The route table of internal/api/server/server.go, and the choice among its patterns as the chi
-- router documents it: a static part is preferred to a parameter, part by part.
use btc_eth_indexer.Prelude.{
  Bool, List, [], ◌∷◌, Option, none, some, Text, codes, text_eq, is_empty, split_on, if◌then◌else◌,
  String,
}

-- A handler of the server with the parameters of its pattern.
pub data Handler : Type 0 where
  health status metrics handle_search get_latest_block get_latest_txs get_events : Handler
  get_block get_tx get_address_txs get_block_txs get_address_balance : Text → Text → Handler
  get_contract get_token_balances get_token_transfers : Text → Text → Handler
  get_contract_events get_address_stats : Text → Text → Handler
  get_pending_txs get_stats get_blocks_range : Text → Handler

abbrev is_part : Text → String → Bool
is_part part name = text_eq part (codes name)

abbrev param : Text → Handler → Option Handler
param value h = if is_empty value then none else some h

-- the patterns of one, two, three and four parts
abbrev one_part : Text → Option Handler
one_part a =
    if is_part a "health"
    then some health
    else if is_part a "status"
    then some status
    else if is_part a "metrics"
    then some metrics
    else if is_part a "search"
    then some handle_search
    else if is_part a "events"
    then some get_events
    else none

abbrev two_parts : Text → Text → Option Handler
two_parts a b =
    if is_part a "blocks"
    then (if is_part b "latest" then some get_latest_block else none)
    else if is_part a "txs"
    then (if is_part b "latest" then some get_latest_txs else none)
    else if is_part a "stats"
    then param b (get_stats b)
    else none

abbrev under_blocks : Text → Text → Option Handler
under_blocks chain id =
    if is_part id "range"
    then param chain (get_blocks_range chain)
    else param chain (get_block chain id)

abbrev three_parts : Text → Text → Text → Option Handler
three_parts a b c =
    if is_empty c
    then none
    else if is_part a "blocks"
    then under_blocks b c
    else if is_part a "tx"
    then param b (get_tx b c)
    else if is_part a "balance"
    then param b (get_address_balance b c)
    else if is_part a "contract"
    then param b (get_contract b c)
    else if is_part a "txs"
    then (if is_part b "pending" then some (get_pending_txs c) else none)
    else none

abbrev four_parts : Text → Text → Text → Text → Option Handler
four_parts a b c d =
    if is_empty c
    then none
    else if is_part a "address"
    then (if is_part d "txs" then param b (get_address_txs b c) else none)
    else if is_part a "blocks"
    then (if is_part d "txs" then param b (get_block_txs b c) else none)
    else if is_part a "tokens"
    then (if is_part d "balances"
        then param b (get_token_balances b c)
        else if is_part d "transfers"
        then param b (get_token_transfers b c)
        else none)
    else if is_part a "contract"
    then (if is_part d "events" then param b (get_contract_events b c) else none)
    else if is_part a "stats"
    then (if is_part b "address" then param d (get_address_stats c d) else none)
    else none

abbrev pub handler_of_parts : List Text → Option Handler
handler_of_parts ((c ∷ s) ∷ r) = none
handler_of_parts ([] ∷ a ∷ []) = one_part a
handler_of_parts ([] ∷ a ∷ b ∷ []) = two_parts a b
handler_of_parts ([] ∷ a ∷ b ∷ c ∷ []) = three_parts a b c
handler_of_parts ([] ∷ a ∷ b ∷ c ∷ d ∷ []) = four_parts a b c d
handler_of_parts _ = none

-- the handler of a GET request
unfoldable pub route : Text → Option Handler
unfolding split_on
route path = handler_of_parts (split_on 47 path)
