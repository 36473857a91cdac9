-- ===== src/Pollers/LogBounds.antt =====
-- `fetchLogs` ends, and returns every log of its range in order.
use btc_eth_indexer.Prelude.{
  ℕ, zero, suc, ◌+◌, ◌-◌, ◌*◌, ◌/◌, ◌^◌, ◌%◌, ◌≤◌, ◌<◌, Bool, ltb, leb, if_intro, ◌≡◌, ◌≢◌, arith,
}
use btc_eth_indexer.Pollers.Logs.{
  LogAnswer, logs, rate_limited, range_too_large, broken, Fetched, out_of_fuel, Progress, retry,
  current_to, settle, resume, fetch_from, fetch_logs, max_retries, min_batch,
}

module _ {ℓ} {A : Type ℓ} (to_block : ℕ) where
  -- A state of the loop from which the fuel is enough: a turn that fails costs one retry of five, and
  -- a turn that succeeds passes a block at least.
  record IsReady (n : ℕ) (p : Progress A) : Type 0 where
    positive : 1 ≤ p.batch_size
    few : p.retries ≤ 5
    bounded : to_block + p.batch_size < 2 ^ 64
    inside : p.current_from ≤ to_block + 1
    fueled : 1 ≤ n
    enough : 6 * (to_block + 1 - p.current_from) + 1 ≤ n + p.retries

  -- without wrapping around
  pub current_to_lem :
      (p : Progress A)
      → 1 ≤ p.batch_size
      → to_block + p.batch_size < 2 ^ 64
      → p.current_from ≤ to_block
      → (p.current_from ≤ current_to to_block p) × (current_to to_block p ≤ to_block)
  current_to_lem p b w i = ground arith

  retry-ends :
      (n : ℕ) (p : Progress A) (go : Progress A → Fetched A)
      → ((q : Progress A) → IsReady n q → go q ≢ out_of_fuel)
      → 1 ≤ p.batch_size
      → to_block + p.batch_size < 2 ^ 64
      → p.current_from ≤ to_block
      → p.retries ≤ 5
      → 6 * (to_block + 1 - p.current_from) + 1 ≤ suc n + p.retries
      → resume go (retry p) ≢ out_of_fuel
  retry-ends n p go ih b w i f k =
      if_intro (λ t. resume go t ≢ out_of_fuel) (ltb max_retries (p.retries + 1)) _ _
        (λ _. ground arith)
        (λ h.
          ih (record p { retries = p.retries + 1 })
            (record {
              positive = b;
              few = ground arith;
              bounded = w;
              inside = omega arith;
              fueled = ground arith;
              enough = omega arith;
            }))

  settle-ends :
      (n : ℕ) (p : Progress A) (go : Progress A → Fetched A) (a : LogAnswer A)
      → ((q : Progress A) → IsReady n q → go q ≢ out_of_fuel)
      → IsReady (suc n) p
      → p.current_from ≤ to_block
      → resume go (settle to_block p a) ≢ out_of_fuel
  settle-ends n p go (logs es) ih r i =
      let (low, high) = current_to_lem p r.positive r.bounded i in
      let next : (current_to to_block p + 1) % 2 ^ 64 ≡ current_to to_block p + 1 =
        omega (arith, r.bounded, r.positive) in
      ih _ (record {
        positive = r.positive;
        few = omega arith;
        bounded = r.bounded;
        inside = omega (arith, next, low, high);
        fueled = omega (arith, r.enough, r.few, i);
        enough = omega (arith, next, low, high, r.enough, r.few, i);
      })
  settle-ends n p go rate_limited ih r i =
      retry-ends n p go ih r.positive r.bounded i r.few r.enough
  settle-ends n p go range_too_large ih r i =
      if_intro (λ t. resume go t ≢ out_of_fuel) (ltb (p.batch_size / 2) min_batch) _ _
        (λ _. ground arith)
        (λ h.
          retry-ends n (record p { batch_size = p.batch_size / 2 }) go ih (ground arith)
            (omega (arith, r.bounded)) i r.few r.enough)
  settle-ends n p go broken ih r i = ground arith

  module _ (node : ℕ → ℕ → ℕ → LogAnswer A) (is_done : ℕ → Bool) where
    fetch_from-ends :
        (n : ℕ) (p : Progress A) → IsReady n p → fetch_from node is_done to_block n p ≢ out_of_fuel
    unfolding fetch_from
    fetch_from-ends zero p r = omega (arith, r.fueled)
    fetch_from-ends (suc n) p r =
        let go = fetch_from node is_done to_block n in
        if_intro (λ t. resume go t ≢ out_of_fuel) (leb p.current_from to_block) _ _
          (λ h.
            if_intro (λ t. resume go t ≢ out_of_fuel) (is_done n) _ _ (λ _. ground arith)
              (λ _.
                settle-ends n p go (node n p.current_from (current_to to_block p))
                  (fetch_from-ends n) r (ground arith)))
          (λ _. ground arith)

    -- If the batch size is positive and the range stays below 2 ^ 64, then the loop ends whatever the
    -- node answers and when: six turns for each block are enough.
    pub fetch_logs-ends :
        (from_block batch : ℕ)
        → 1 ≤ batch
        → to_block + batch < 2 ^ 64
        → from_block ≤ to_block + 1
        → fetch_logs node is_done to_block from_block batch ≢ out_of_fuel
    unfolding fetch_logs
    fetch_logs-ends from_block batch b w i =
        fetch_from-ends (6 * (to_block + 1 - from_block) + 1) _ (record {
          positive = b;
          few = omega arith;
          bounded = w;
          inside = i;
          fueled = omega arith;
          enough = omega arith;
        })
