-- ===== src/Tests/Searching.antt =====
-- The search box and the addresses of the site.
use btc_eth_indexer.Prelude.{
  ◌⊎◌, true, false, List, [], ◌∷◌, none, some, Text, codes, show, Try, ok, throw, ◌≡◌, ◌≢◌, refl,
  arith,
}
use btc_eth_indexer.Types.{btc, eth}
use btc_eth_indexer.Json.{undefined, number}
use btc_eth_indexer.Pages.{address_path, IsSegment, Page, page_of}
use btc_eth_indexer.Server.SearchService.{Token, search, handle_search as serve_search}
use btc_eth_indexer.Search.{SearchInput, on_change, push, smart_route, verdict, finish}
use btc_eth_indexer.Search.Routing.{smart_route-show, Answers, smart_route-Answers}
use btc_eth_indexer.Search.Answers.{outcome, misses, finish-outcome, verdict_of_tokens}
use btc_eth_indexer.Search.Progress.{
  Session, opened, Reach, here, next, change, Reach-SpinsForReason, stale_answer_wins,
}

abbrev tether : Token
tether = record {
  chain_id = eth;
  address = codes "0xdac17f958d2ee523a2206206994597c13d831ec7";
  name = codes "Tether USD";
  symbol = codes "USDT";
  decimals = 6;
  first_seen_height = 1;
  last_seen_height = 2;
  created_at = codes "2024-01-01T00:00:00Z";
}

abbrev store_of_tether : Text → Try (List Token)
store_of_tether q = ok (tether ∷ [])

abbrev empty_store : Text → Try (List Token)
empty_store q = ok []

verdict_of_tokens_example :
    verdict eth (codes "usdt") (serve_search store_of_tether (codes "usdt"))
    ≡ push (codes "/address/undefined/undefined")
unfolding search
verdict_of_tokens_example = verdict_of_tokens store_of_tether eth (codes "usdt") tether [] refl

smart_route-show_example :
    smart_route eth (show 19000000) ≡ some (address_path (codes "btc") (codes "19000000"))
unfolding show
smart_route-show_example = smart_route-show eth 19000000 (omega arith)

abbrev eth_account : Text
eth_account = codes "0xdac17f958d2ee523a2206206994597c13d831ec7"

smart_route-Answers_example :
    (p : Page) × (page_of (address_path (codes "eth") eth_account) ≡ some p)
    × Answers btc eth_account p
unfolding smart_route
smart_route-Answers_example =
    smart_route-Answers btc eth_account (address_path (codes "eth") eth_account) refl refl refl

abbrev waiting_box : SearchInput
waiting_box = record { search = codes "usdt"; is_searching = true; error = none }

finish-outcome_example :
    (finish eth (codes "nope") (serve_search empty_store (codes "nope")) waiting_box
      ≡ outcome eth (codes "nope") (search empty_store (codes "nope")) waiting_box)
    × (finish eth (codes "nope") throw waiting_box
        ≡ misses eth (codes "nope") (codes "Search failed") waiting_box)
finish-outcome_example = finish-outcome empty_store eth (codes "nope") waiting_box

abbrev typed : Session
typed = record opened { box = record { search = codes "usdt"; is_searching = false; error = none } }

Reach-SpinsForReason_example : (typed.box.is_searching ≡ false) ⊎ (typed.waiting ≢ [])
unfolding on_change
Reach-SpinsForReason_example =
    Reach-SpinsForReason eth {w = typed} (next here (change opened (codes "usdt")))

abbrev two_waiting : Session
two_waiting = record { box = waiting_box; waiting = codes "b" ∷ codes "a" ∷ []; pushed = [] }

-- a falsy answer pushes the empty route
stale_answer_wins_example : (v : Session) × Reach eth two_waiting v × (v.pushed ≡ [] ∷ [] ∷ [])
unfolding verdict
stale_answer_wins_example =
    stale_answer_wins eth two_waiting (codes "a") (codes "b") [] (ok undefined) (ok (number 0)) []
      [] refl refl refl

hash-IsSegment : IsSegment (codes "0xaa")
hash-IsSegment = record { filled = refl; slash_free = omega arith }

eth-IsSegment : IsSegment (codes "eth")
eth-IsSegment = record { filled = refl; slash_free = omega arith }
