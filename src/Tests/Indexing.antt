-- ===== src/Tests/Indexing.antt =====
-- A node with a chain of blocks, polled, and a run of the coordinator on it.
use btc_eth_indexer.Prelude.{
  ℕ, ◌+◌, ◌-◌, false, true, List, [], ◌∷◌, none, codes, show, ok, throw, ◌≡◌, ◌≢◌, Text, ◌↔◌, ◌⊎◌,
  refl, ap, arith,
}
use btc_eth_indexer.Types.{btc, eth, Block}
use btc_eth_indexer.Storage.{Event, init_checkpoint, pending}
use btc_eth_indexer.Coordinator.{
  Batch, basic, event_capable, Config, Moment, State, begin, tick, poll,
}
use btc_eth_indexer.Coordinator.Linked.{IsChain}
use btc_eth_indexer.Coordinator.Polling.{IsAnswer}
use btc_eth_indexer.Coordinator.Running.{
  IsPlain, Reached, begun, ticked, Reached-IsChain, elsewhere, poll-blind,
}
use btc_eth_indexer.Pollers.{BtcNode, btc_poll}
use btc_eth_indexer.Pollers.Answers.{IsBlockchain, served, known, btc_poll-IsAnswer}
use btc_eth_indexer.Pollers.Logs.{
  LogAnswer, logs, rate_limited, out_of_fuel, fetch_from, fetch_logs,
}
use btc_eth_indexer.Pollers.Texts.{answer_of_error, answer_of_error_lem, contains, scan, Occurs}
use btc_eth_indexer.Pollers.LogBounds.{fetch_logs-ends}
use btc_eth_indexer.Pollers.LogCover.{logs_from, complete, fetch_logs-all}
use btc_eth_indexer.Tests.Storing.{server, empty, some_block}

abbrev chain : ℕ → Block
chain h = some_block h (show h) (show (h - 1))

chain-IsBlockchain : IsBlockchain btc chain
chain-IsBlockchain = record {
  placed = λ h. refl;
  own = λ h. refl;
  live = λ h. refl;
  parent = λ h. ap show (let e : h + 1 - 1 ≡ h = omega arith in e);
}

abbrev node : BtcNode
node = record { tip = ok 5; is_done = λ h. false; block = λ h. ok (chain h, []) }

btc_poll-IsAnswer_example : IsAnswer btc 2 (btc_poll node 2 2)
btc_poll-IsAnswer_example =
    btc_poll-IsAnswer btc chain node 2 2 chain-IsBlockchain (λ h. served []) (omega arith)
      (known 5 (omega arith))

abbrev config : Config
config = record { chain = btc; start_height = 0; confirmation_depth = 6; max_depth = 10 }

abbrev moment : Moment
moment = record {
  server = server;
  poller = basic (btc_poll node 2);
  on_node = λ hash. ok none;
  cancelled = λ h. false;
  gives_up = false;
}

moment-IsPlain : IsPlain config moment
moment-IsPlain = record {
  answer = btc_poll node 2;
  is_basic = refl;
  answers = λ n.
      btc_poll-IsAnswer btc chain node 2 n chain-IsBlockchain (λ h. served []) (omega arith)
        (known 5 (omega arith));
}

abbrev start : State
start = record {
  db = empty;
  metrics = record {
    last_indexed_height = 0;
    total_blocks_indexed = 0;
    total_poll_errors = 0;
    total_reorgs = 0;
    last_reorg_depth = 0;
  };
}

start-Reached : Reached config (begin config moment start).0
unfolding begin init_checkpoint
start-Reached = begun moment start moment-IsPlain (λ k. refl) refl

Reached-IsChain_example : IsChain btc (tick config moment (begin config moment start).0).db
Reached-IsChain_example =
    Reached-IsChain config (tick config moment (begin config moment start).0)
      (ticked moment (begin config moment start).0 moment-IsPlain start-Reached)

abbrev event : Event
event = record {
  chain_id = eth;
  block_height = 1;
  block_hash = codes "1";
  tx_hash = codes "t";
  log_index = 0;
  contract_addr = codes "c";
  event_name = codes "Transfer";
  topic0 = codes "0";
  topics = [];
  decoded = [];
  raw_data = [];
  status = pending;
  decode_failed = false;
}

-- a block that does not continue the stored one, with an event
abbrev batch : Batch
batch = record {
  blocks = some_block 1 (codes "1") (codes "forked") ∷ [];
  txs = [];
  events = event ∷ [];
  tokens = [];
  transfers = [];
}

abbrev eventful : Moment
eventful = record moment { poller = event_capable (λ n. ok batch) }

poll-blind_example :
    (poll config (elsewhere config eventful (λ hash. throw) (λ h. true) true) start
      ≡ poll config eventful start)
    × ((poll config eventful start).0.metrics ≡ start.metrics)
poll-blind_example =
    poll-blind config eventful (λ hash. throw) (λ h. true) true (λ n. batch) start refl (λ n. refl)

abbrev numbered : ℕ → List ℕ
numbered k = k ∷ []

abbrev truthful : ℕ → ℕ → ℕ → LogAnswer ℕ
truthful m a b = logs (logs_from numbered a (b + 1 - a))

fetch_logs-all_example : (3 ∷ 4 ∷ 5 ∷ 6 ∷ 7 ∷ []) ≡ logs_from numbered 3 (7 + 1 - 3)
unfolding fetch_logs fetch_from logs_from
fetch_logs-all_example =
    fetch_logs-all numbered 7 truthful (λ n. false) 3 2 (3 ∷ 4 ∷ 5 ∷ 6 ∷ 7 ∷ []) (λ m a b. complete)
      (omega arith) (omega arith) (omega arith) refl

abbrev limiting : ℕ → ℕ → ℕ → LogAnswer ℕ
limiting m a b = rate_limited

fetch_logs-ends_example : fetch_logs limiting (λ n. false) 7 3 2 ≢ out_of_fuel
fetch_logs-ends_example =
    fetch_logs-ends 7 limiting (λ n. false) 3 2 (omega arith) (omega arith) (omega arith)

-- an error about a range in which a block number has the digits 429
abbrev large_range : Text
large_range = codes "block range 14290 to 16290 is too large"

answer_of_error_lem_example :
    (answer_of_error {A = ℕ} large_range ≡ rate_limited)
    ↔ (Occurs (codes "429") large_range ⊎ Occurs (codes "rate limit") large_range)
answer_of_error_lem_example = answer_of_error_lem {A = ℕ} large_range

taken_for_limited : answer_of_error {A = ℕ} large_range ≡ rate_limited
unfolding answer_of_error contains scan
taken_for_limited = refl
