-- ===== src/Pollers/Logs.antt =====
-- internal/poller/eth/poller.go: `fetchLogs`, which asks for the logs of a range of blocks in
-- batches, tries again after a limited rate, and halves the batch after a range that is too large.
use btc_eth_indexer.Prelude.{
  ℕ, zero, suc, ◌+◌, ◌-◌, ◌*◌, ◌/◌, ◌^◌, Bool, ltb, leb, List, [], ◌++◌, if◌then◌else◌,
}
use btc_eth_indexer.Pollers.{wrap}

-- `MaxLogBatchRetries`, `MinLogBatchSize`
abbrev pub max_retries : ℕ
max_retries = 5

abbrev pub min_batch : ℕ
min_batch = 10

-- an answer of `fetchLogsRange`: its logs, or an error that `isRateLimitError`, `isRangeTooLargeError`
-- or neither tells
pub data LogAnswer {ℓ} (A : Type ℓ) : Type ℓ where
  logs : List A → LogAnswer A
  rate_limited range_too_large broken : LogAnswer A

pub data Fetched {ℓ} (A : Type ℓ) : Type ℓ where
  fetched : List A → Fetched A
  given_up out_of_fuel : Fetched A

-- what the loop changes
pub record Progress {ℓ} (A : Type ℓ) : Type ℓ where
  pub current_from : ℕ
  pub batch_size : ℕ
  pub retries : ℕ
  pub all_events : List A

-- one turn ends the loop or goes on
pub data Turn {ℓ} (A : Type ℓ) : Type ℓ where
  stop : Fetched A → Turn A
  again : Progress A → Turn A

module _ {ℓ} {A : Type ℓ} where
  -- `retries++; if retries > MaxLogBatchRetries { return }; continue`
  abbrev pub retry : Progress A → Turn A
  retry p =
      if ltb max_retries (p.retries + 1)
      then stop given_up
      else again (record p { retries = p.retries + 1 })

  abbrev pub current_to : ℕ → Progress A → ℕ
  current_to to_block p =
      let up_to = wrap (wrap (p.current_from + p.batch_size) + (2 ^ 64 - 1)) in
      if ltb to_block up_to then to_block else up_to

  abbrev pub settle : ℕ → Progress A → LogAnswer A → Turn A
  settle to_block p (logs es) = again (record {
    current_from = wrap (current_to to_block p + 1);
    batch_size = p.batch_size;
    retries = 0;
    all_events = p.all_events ++ es;
  })
  settle to_block p rate_limited = retry p
  settle to_block p range_too_large =
      if ltb (p.batch_size / 2) min_batch
      then stop given_up
      else retry (record p { batch_size = p.batch_size / 2 })
  settle to_block p broken = stop given_up

  abbrev pub resume : (Progress A → Fetched A) → Turn A → Fetched A
  resume go (stop r) = r
  resume go (again p) = go p

  -- The loop, with the fuel that is left. The answer to a range may differ each time, and so may
  -- whether the context is done.
  module _ (node : ℕ → ℕ → ℕ → LogAnswer A) (is_done : ℕ → Bool) (to_block : ℕ) where
    abbrev pub turn : ℕ → Progress A → Turn A
    turn n p =
        if leb p.current_from to_block
        then (if is_done n
            then stop given_up
            else settle to_block p (node n p.current_from (current_to to_block p)))
        else stop (fetched p.all_events)

    unfoldable pub fetch_from : ℕ → Progress A → Fetched A
    fetch_from zero p = out_of_fuel
    fetch_from (suc n) p = resume (fetch_from n) (turn n p)

    -- `fetchLogs`, with fuel for every turn that there can be
    unfoldable pub fetch_logs : ℕ → ℕ → Fetched A
    unfolding fetch_from
    fetch_logs from_block log_batch_size =
        fetch_from (6 * (to_block + 1 - from_block) + 1) (record {
          current_from = from_block;
          batch_size = log_batch_size;
          retries = 0;
          all_events = [];
        })
