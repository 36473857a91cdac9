-- ===== src/Coordinator.antt =====
-- internal/coordinator/coordinator.go: the loop that indexes a chain. The poller, the node and the
-- database server are parameters, which may answer differently at each poll. Log messages and times
-- are left out; one coordinator writes, so that the semaphore is free unless the context is done.
pub mod Growth
pub mod Linked
pub mod Polling
pub mod Running
use btc_eth_indexer.Prelude.{
  ℕ, ◌+◌, Bool, true, false, ◌&&◌, List, [], ◌∷◌, is_empty, length, Option, none, some, Text,
  if◌then◌else◌, Try, ok, throw,
}
use btc_eth_indexer.Types.{Chain, Block}
use btc_eth_indexer.Reorg.{Surroundings, Outcome, ReorgResult, fine, failed, detect}
use btc_eth_indexer.Storage.{
  Transaction, Event, Token, TokenTransfer, Checkpoint, Database, Postgres, Result, done, refused,
  get_checkpoint, get_block_by_height, init_checkpoint,
}
use btc_eth_indexer.Storage.Writing.{write_blocks}
use btc_eth_indexer.Storage.EventWriting.{write_blocks_with_events}
use btc_eth_indexer.Storage.Rollback.{rollback}
use btc_eth_indexer.Storage.Finalization.{finalize_blocks}

-- what `PollWithEvents` returns, as far as it is used
pub record Batch : Type 0 where
  pub blocks : List Block
  pub txs : List Transaction
  pub events : List Event
  pub tokens : List Token
  pub transfers : List TokenTransfer

-- `c.poller.(poller.EventCapablePoller)` succeeds or not
pub data Poller : Type 0 where
  basic : (ℕ → Try (List Block × List Transaction)) → Poller
  event_capable : (ℕ → Try Batch) → Poller

-- the configuration of the chain and of its detector
pub record Config : Type 0 where
  pub chain : Chain
  pub start_height : ℕ
  pub confirmation_depth : ℕ
  pub max_depth : ℕ

-- What a poll meets: the server, the poller, the node, and whether the context is done when the
-- detector reaches a height or when the semaphore is awaited.
pub record Moment : Type 0 where
  pub server : Postgres
  pub poller : Poller
  pub on_node : Text → Try (Option Block)
  pub cancelled : ℕ → Bool
  pub gives_up : Bool

-- `MetricsSnapshot`, without the times
pub record Metrics : Type 0 where
  pub last_indexed_height : ℕ
  pub total_blocks_indexed : ℕ
  pub total_poll_errors : ℕ
  pub total_reorgs : ℕ
  pub last_reorg_depth : ℕ

pub record State : Type 0 where
  pub db : Database
  pub metrics : Metrics

module _ (g : Config) (e : Moment) where
  abbrev pub pg : Postgres
  pg = e.server

  -- what the detector sees
  abbrev pub surroundings : Database → Surroundings
  surroundings db = record {
    stored = λ k. get_block_by_height pg g.chain k db;
    on_node = e.on_node;
    cancelled = e.cancelled;
    max_depth = g.max_depth;
  }

  abbrev pub last_height : Option Checkpoint → ℕ
  last_height none = g.start_height
  last_height (some cp) = cp.last_height

  abbrev last_block_height : Block → List Block → ℕ
  last_block_height b [] = b.height
  last_block_height b (b2 ∷ bs) = last_block_height b2 bs

  -- `totalBlocksIndexed` is a uint64, and does not come near its end
  abbrev pub count_blocks : Block → List Block → Metrics → Metrics
  count_blocks b bs m = record m {
    last_indexed_height = last_block_height b bs;
    total_blocks_indexed = m.total_blocks_indexed + length (b ∷ bs);
  }

  abbrev pub count_reorg : ReorgResult → Metrics → Metrics
  count_reorg r m = record m { total_reorgs = m.total_reorgs + 1; last_reorg_depth = r.depth }

  -- behind a write: the finalization, whose error is only logged, and the metrics
  abbrev pub finish : Block → List Block → Metrics → Database × Result → State × Result
  finish b bs m (db, refused) = (record { db = db; metrics = m }, refused)
  finish b bs m (db, done) = (
    record {
      db = (finalize_blocks pg g.chain g.confirmation_depth db).0;
      metrics = count_blocks b bs m;
    },
    done,
  )

  abbrev pub store : List Block → List Transaction → List Event → Database → Database × Result
  store bs ts es db =
      if is_empty es
      then write_blocks pg g.chain bs ts db
      else write_blocks_with_events pg g.chain bs ts es [] [] [] db

  abbrev pub with_result : Metrics → Database × Result → State × Result
  with_result m (db, r) = (record { db = db; metrics = m }, r)

  -- behind the detection
  abbrev pub follow :
      Block → List Block → List Transaction → List Event → State → Outcome → State × Result
  follow b bs ts es s (failed o) = (s, refused)
  follow b bs ts es s (fine r) =
      if r.detected
      then (let m = count_reorg r s.metrics in
          if e.gives_up
          then (record { db = s.db; metrics = m }, refused)
          else with_result m (rollback g.chain r.rollback_height r.rollback_hash pg s.db))
      else if e.gives_up
      then (s, refused)
      else finish b bs s.metrics (store (b ∷ bs) ts es s.db)

  -- from `if len(blocks) == 0` on
  unfoldable pub proceed : List Block → List Transaction → List Event → State → State × Result
  proceed [] ts es s = (s, done)
  proceed (b ∷ bs) ts es s = follow b bs ts es s (detect (surroundings s.db) (b ∷ bs))

  -- a batch with events is written at once, and then `blocks = nil`
  abbrev pub take_batch : Batch → State → State × Result
  take_batch b s =
      if is_empty b.events && is_empty b.tokens && is_empty b.transfers
      then proceed b.blocks b.txs b.events s
      else with_result s.metrics
          (write_blocks_with_events pg g.chain b.blocks b.txs b.events [] b.tokens b.transfers s.db)

  abbrev pub take_plain : Try (List Block × List Transaction) → State → State × Result
  take_plain throw s = (s, refused)
  take_plain (ok (bs, ts)) s = proceed bs ts [] s

  abbrev pub take_events : Try Batch → State → State × Result
  take_events throw s = (s, refused)
  take_events (ok b) s = take_batch b s

  abbrev pub ask : Poller → ℕ → State → State × Result
  ask (basic f) last s = take_plain (f last) s
  ask (event_capable f) last s = take_events (f last) s

  abbrev pub poll_from : Try (Option Checkpoint) → State → State × Result
  poll_from throw s = (s, refused)
  poll_from (ok cp) s = ask e.poller (last_height cp) s

  -- `poll`
  unfoldable pub poll : State → State × Result
  poll s = poll_from (get_checkpoint pg g.chain s.db) s

  -- a tick of the loop of `Run`
  abbrev pub counted : State × Result → State
  counted (s, done) = s
  counted (s, refused) = record s {
    metrics = record s.metrics { total_poll_errors = s.metrics.total_poll_errors + 1 };
  }

  unfoldable pub tick : State → State
  tick s = counted (poll s)

  -- `Run` up to the loop: the checkpoint and the first poll, whose error is only logged
  abbrev pub first_poll : Metrics → Database × Result → State × Result
  first_poll m (db, refused) = (record { db = db; metrics = m }, refused)
  first_poll m (db, done) = ((poll (record { db = db; metrics = m })).0, done)

  unfoldable pub begin : State → State × Result
  begin s = first_poll s.metrics (init_checkpoint pg g.chain g.start_height s.db)
