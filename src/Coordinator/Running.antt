-- ===== src/Coordinator/Running.antt =====
-- The states that a run of the coordinator reaches, and what a batch with events skips.
use btc_eth_indexer.Prelude.{
  ℕ, suc, ◌+◌, Bool, false, ◌&&◌, List, [], is_empty, if_intro, Option, none, some, Text, Try, ok,
  throw, ◌≡◌, refl, sym, subst, arith,
}
use btc_eth_indexer.Types.{Block}
use btc_eth_indexer.Storage.{
  Transaction, Checkpoint, Database, Result, done, refused, block_at, chain_eq_same,
  setting_checkpoint, get_checkpoint, init_checkpoint, init_from,
}
use btc_eth_indexer.Coordinator.Linked.{IsChain}
use btc_eth_indexer.Coordinator.Polling.{IsAnswer, poll-IsChain}
use btc_eth_indexer.Coordinator.{
  Batch, basic, event_capable, Config, Moment, State, Metrics, last_height, take_batch, ask,
  poll_from, poll, tick, counted, first_poll, begin,
}

-- A moment at which the poller has no events and answers with runs of blocks.
pub record IsPlain (g : Config) (e : Moment) : Type 0 where
  pub answer : ℕ → Try (List Block × List Transaction)
  pub is_basic : e.poller ≡ basic answer
  pub answers : (n : ℕ) → IsAnswer g.chain n (answer n)

-- The states that `Run` is in at its loop, from a database without blocks of the chain on.
pub data Reached (g : Config) : State → Type 0 where
  begun :
      (e : Moment) (s : State)
      → IsPlain g e
      → ((k : ℕ) → block_at g.chain k s.db.blocks ≡ none)
      → (begin g e s).1 ≡ done
      → Reached g (begin g e s).0
  ticked : (e : Moment) (s : State) → IsPlain g e → Reached g s → Reached g (tick g e s)

module _ (g : Config) (e : Moment) where
  init_from-IsChain :
      (db : Database) (o : Option Checkpoint)
      → ((k : ℕ) → block_at g.chain k db.blocks ≡ none)
      → db.checkpoints g.chain ≡ o
      → IsChain g.chain (init_from g.chain g.start_height db o)
  init_from-IsChain db none empty h = record {
    checkpoint = record { last_height = g.start_height; last_hash = [] };
    has = rw (chain_eq_same g.chain) refl;
    top = λ k. empty (suc (g.start_height + k));
    linked = λ k. rw (empty k) tt;
  }
  init_from-IsChain db (some cp) empty h = record {
    checkpoint = cp;
    has = h;
    top = λ k. empty (suc (cp.last_height + k));
    linked = λ k. rw (empty k) tt;
  }

  poll_plain : (s : State) → IsPlain g e → IsChain g.chain s.db → IsChain g.chain (poll g e s).0.db
  poll_plain s p h = poll-IsChain g e p.answer s p.is_basic p.answers h

  begun-IsChain :
      (s : State)
      → ((k : ℕ) → block_at g.chain k s.db.blocks ≡ none)
      → (init_checkpoint e.server g.chain g.start_height s.db).1 ≡ done
      → IsChain g.chain (init_checkpoint e.server g.chain g.start_height s.db).0
  unfolding init_checkpoint
  begun-IsChain s empty =
      if_intro {A = Database × Result} (λ r. r.1 ≡ done → IsChain g.chain r.0)
        (e.server.fails setting_checkpoint) _ _ (λ _ h. ground arith)
        (λ _ _. init_from-IsChain s.db (s.db.checkpoints g.chain) empty refl)

  first_poll-IsChain :
      (m : Metrics) (r : Database × Result)
      → IsPlain g e
      → (r.1 ≡ done → IsChain g.chain r.0)
      → (first_poll g e m r).1 ≡ done
      → IsChain g.chain (first_poll g e m r).0.db
  first_poll-IsChain m (db, refused) p h f = ground arith
  first_poll-IsChain m (db, done) p h f = poll_plain (record { db = db; metrics = m }) p (h refl)

  counted-IsChain :
      (r : State × Result) → IsChain g.chain r.0.db → IsChain g.chain (counted g e r).db
  counted-IsChain (s, done) h = h
  counted-IsChain (s, refused) h = h

  tick-IsChain : (s : State) → IsPlain g e → IsChain g.chain s.db → IsChain g.chain (tick g e s).db
  unfolding tick
  tick-IsChain s p h = counted-IsChain (poll g e s) (poll_plain s p h)

  begin-IsChain :
      (s : State)
      → IsPlain g e
      → ((k : ℕ) → block_at g.chain k s.db.blocks ≡ none)
      → (begin g e s).1 ≡ done
      → IsChain g.chain (begin g e s).0.db
  unfolding begin
  begin-IsChain s p empty =
      first_poll-IsChain s.metrics (init_checkpoint e.server g.chain g.start_height s.db) p
        (begun-IsChain s empty)

-- In every state that a run reaches, from a database without blocks of the chain on and with a
-- poller without events whose answers are runs of blocks, the blocks of the chain are linked and none is
-- above the checkpoint, whatever reorganisations, failures and cancellations there were.
pub Reached-IsChain : (g : Config) (s : State) → Reached g s → IsChain g.chain s.db
Reached-IsChain g _ (begun e s p empty h) = begin-IsChain g e s p empty h
Reached-IsChain g _ (ticked e s p r) = tick-IsChain g e s p (Reached-IsChain g s r)

module _ (g : Config) (e : Moment) where
  -- the same moment with another node, another context and other waiting
  abbrev pub elsewhere : (Text → Try (Option Block)) → (ℕ → Bool) → Bool → Moment
  elsewhere node cancelled gives_up = record e {
    on_node = node;
    cancelled = cancelled;
    gives_up = gives_up;
  }

  take_batch-blind :
      (node : Text → Try (Option Block)) (cancelled : ℕ → Bool) (gives_up : Bool) (b : Batch)
      (s : State)
      → (is_empty b.events && is_empty b.tokens && is_empty b.transfers) ≡ false
      → (take_batch g (elsewhere node cancelled gives_up) b s ≡ take_batch g e b s)
        × ((take_batch g e b s).0.metrics ≡ s.metrics)
  take_batch-blind node cancelled gives_up b s h = rw h (refl, refl)

  blind_at :
      (node : Text → Try (Option Block)) (cancelled : ℕ → Bool) (gives_up : Bool) (b : ℕ → Batch)
      (cp : Try (Option Checkpoint)) (s : State)
      → e.poller ≡ event_capable (λ n. ok (b n))
      → ((n : ℕ)
          → (is_empty (b n).events && is_empty (b n).tokens && is_empty (b n).transfers) ≡ false)
      → (poll_from g (elsewhere node cancelled gives_up) cp s ≡ poll_from g e cp s)
        × ((poll_from g e cp s).0.metrics ≡ s.metrics)
  blind_at node cancelled gives_up b throw s p h = (refl, refl)
  blind_at node cancelled gives_up b (ok cp) s p h =
      subst
        (λ q.
          (ask g (elsewhere node cancelled gives_up) q (last_height g e cp) s
            ≡ ask g e q (last_height g e cp) s)
          × ((ask g e q (last_height g e cp) s).0.metrics ≡ s.metrics))
        (sym p)
        (take_batch-blind node cancelled gives_up (b (last_height g e cp)) s
          (h (last_height g e cp)))

  -- If the poller answers with events, tokens or transfers, then the poll does the same whatever the
  -- node says of the stored blocks, and changes no metric: the reorganisation detector is not asked.
  pub poll-blind :
      (node : Text → Try (Option Block)) (cancelled : ℕ → Bool) (gives_up : Bool) (b : ℕ → Batch)
      (s : State)
      → e.poller ≡ event_capable (λ n. ok (b n))
      → ((n : ℕ)
          → (is_empty (b n).events && is_empty (b n).tokens && is_empty (b n).transfers) ≡ false)
      → (poll g (elsewhere node cancelled gives_up) s ≡ poll g e s)
        × ((poll g e s).0.metrics ≡ s.metrics)
  unfolding poll
  poll-blind node cancelled gives_up b s p h =
      blind_at node cancelled gives_up b (get_checkpoint e.server g.chain s.db) s p h
