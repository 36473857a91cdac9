-- ===== src/Pollers/LogCover.antt =====
-- `fetchLogs` returns the logs of every block of its range, in order and once.
use btc_eth_indexer.Prelude.{
  ℕ, zero, suc, ◌+◌, ◌-◌, ◌*◌, ◌/◌, ◌^◌, ◌%◌, ◌≤◌, ◌<◌, Bool, ltb, leb, List, [], ◌++◌, if_intro,
  append_assoc, append-nil, ◌≡◌, sym, ap, ◌∙◌, arith,
}
use btc_eth_indexer.Pollers.Logs.{
  LogAnswer, logs, rate_limited, range_too_large, broken, Fetched, fetched, given_up, out_of_fuel,
  Progress, retry, current_to, settle, resume, fetch_from, fetch_logs, max_retries, min_batch,
}
use btc_eth_indexer.Pollers.LogBounds.{current_to_lem}

module _ {ℓ} {A : Type ℓ} (logs_of : ℕ → List A) where
  -- the logs of a number of blocks from a height on
  unfoldable pub logs_from : ℕ → ℕ → List A
  logs_from k zero = []
  logs_from k (suc n) = logs_of k ++ logs_from (suc k) n

  logs_from-add : (k m n : ℕ) → logs_from k (m + n) ≡ logs_from k m ++ logs_from (k + m) n
  unfolding logs_from
  logs_from-add k zero n =
      let at : k ≡ k + 0 = omega arith in
      let none_more : 0 + n ≡ n = omega arith in
      ap (logs_from k) none_more ∙ ap (λ j. logs_from j n) at
  logs_from-add k (suc m) n =
      let at : suc k + m ≡ k + suc m = omega arith in
      let one_more : suc m + n ≡ suc (m + n) = omega arith in
      ap (logs_from k) one_more
      ∙ ap (λ r. logs_of k ++ r)
          (logs_from-add (suc k) m n ∙ ap (λ j. logs_from (suc k) m ++ logs_from j n) at)
      ∙ sym (append_assoc (logs_of k) (logs_from (suc k) m) (logs_from (k + suc m) n))

  -- An answer to a range that has the logs of its blocks, or is an error.
  pub data IsTrue (a b : ℕ) : LogAnswer A → Type ℓ where
    complete : IsTrue a b (logs (logs_from a (b + 1 - a)))
    limited : IsTrue a b rate_limited
    too_large : IsTrue a b range_too_large
    failing : IsTrue a b broken

  fetched_inj : (es fs : List A) → fetched es ≡ fetched fs → es ≡ fs
  fetched_inj es fs e = ap taken e
    where
      taken : Fetched A → List A
      taken (fetched xs) = xs
      taken given_up = es
      taken out_of_fuel = es

  module _ (to_block : ℕ) where
    -- what the loop returns from a state of progress
    abbrev all_from : Progress A → List A
    all_from p = p.all_events ++ logs_from p.current_from (to_block + 1 - p.current_from)

    record IsSane (p : Progress A) : Type 0 where
      positive : 1 ≤ p.batch_size
      bounded : to_block + p.batch_size < 2 ^ 64
      inside : p.current_from ≤ to_block + 1

    retry-all :
        (p : Progress A) (go : Progress A → Fetched A) (es : List A)
        → ((q : Progress A) → IsSane q → go q ≡ fetched es → es ≡ all_from q)
        → IsSane p
        → resume go (retry p) ≡ fetched es
        → es ≡ all_from p
    retry-all p go es ih s =
        if_intro (λ t. resume go t ≡ fetched es → es ≡ all_from p) (ltb max_retries (p.retries + 1))
          _ _ (λ _ e. ground arith)
          (λ _ e.
            ih (record p { retries = p.retries + 1 })
              (record { positive = s.positive; bounded = s.bounded; inside = s.inside }) e)

    settle-all :
        (p : Progress A) (go : Progress A → Fetched A) (a : LogAnswer A) (es : List A)
        → ((q : Progress A) → IsSane q → go q ≡ fetched es → es ≡ all_from q)
        → IsSane p
        → p.current_from ≤ to_block
        → IsTrue p.current_from (current_to to_block p) a
        → resume go (settle to_block p a) ≡ fetched es
        → es ≡ all_from p
    settle-all p go _ es ih s i complete e =
        let (low, high) = current_to_lem to_block p s.positive s.bounded i in
        let next : (current_to to_block p + 1) % 2 ^ 64 ≡ current_to to_block p + 1 =
          omega (arith, s.bounded, s.positive) in
        ih _
          (record {
            positive = s.positive;
            bounded = s.bounded;
            inside = omega (arith, next, low, high);
          })
          e
        ∙ append_assoc p.all_events _ _
        ∙ ap (λ r. p.all_events ++ r)
            (rw next (
              ap
                (λ j.
                  logs_from p.current_from (current_to to_block p + 1 - p.current_from)
                  ++ logs_from j (to_block + 1 - (current_to to_block p + 1)))
                (omega (arith, low))
              ∙ sym (
                  logs_from-add p.current_from (current_to to_block p + 1 - p.current_from)
                    (to_block + 1 - (current_to to_block p + 1)))
              ∙ ap (logs_from p.current_from) (omega (arith, low, high))))
    settle-all p go _ es ih s i limited e = retry-all p go es ih s e
    settle-all p go _ es ih s i too_large e =
        if_intro (λ t. resume go t ≡ fetched es → es ≡ all_from p)
          (ltb (p.batch_size / 2) min_batch) _ _ (λ _ f. ground arith)
          (λ h f.
            retry-all (record p { batch_size = p.batch_size / 2 }) go es ih
              (record {
                positive = ground arith;
                bounded = omega (arith, s.bounded);
                inside = s.inside;
              })
              f)
          e
    settle-all p go _ es ih s i failing e = ground arith

    module _ (node : ℕ → ℕ → ℕ → LogAnswer A) (is_done : ℕ → Bool) where
      fetch_from-all :
          (n : ℕ) (p : Progress A) (es : List A)
          → ((m a b : ℕ) → IsTrue a b (node m a b))
          → IsSane p
          → fetch_from node is_done to_block n p ≡ fetched es
          → es ≡ all_from p
      unfolding fetch_from logs_from
      fetch_from-all zero p es true_node s e = ground arith
      fetch_from-all (suc n) p es true_node s e =
          let go = fetch_from node is_done to_block n in
          if_intro (λ t. resume go t ≡ fetched es → es ≡ all_from p) (leb p.current_from to_block) _
            _
            (λ h.
              if_intro (λ t. resume go t ≡ fetched es → es ≡ all_from p) (is_done n) _ _
                (λ _ f. ground arith)
                (λ _.
                  settle-all p go (node n p.current_from (current_to to_block p)) es
                    (λ q. fetch_from-all n q es true_node) s (ground arith)
                    (true_node n p.current_from (current_to to_block p))))
            (λ h f.
              let nothing : to_block + 1 - p.current_from ≡ 0 = ground arith in
              sym (fetched_inj p.all_events es f)
              ∙ sym (append-nil p.all_events)
              ∙ ap (λ k. p.all_events ++ logs_from p.current_from k) (sym nothing))
            e

      -- If each answer of the node to a range is an error or has the logs of its blocks, then what
      -- the loop returns, when it returns logs, is the logs of all blocks of the range in order.
      pub fetch_logs-all :
          (from_block batch : ℕ) (es : List A)
          → ((m a b : ℕ) → IsTrue a b (node m a b))
          → 1 ≤ batch
          → to_block + batch < 2 ^ 64
          → from_block ≤ to_block + 1
          → fetch_logs node is_done to_block from_block batch ≡ fetched es
          → es ≡ logs_from from_block (to_block + 1 - from_block)
      unfolding fetch_logs
      fetch_logs-all from_block batch es true_node b w i e =
          fetch_from-all (6 * (to_block + 1 - from_block) + 1) _ es true_node
            (record { positive = b; bounded = w; inside = i }) e
