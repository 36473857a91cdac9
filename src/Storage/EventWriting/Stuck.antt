-- ===== src/Storage/EventWriting/Stuck.antt =====
-- What a write does with a token that is stored already.
use btc_eth_indexer.Prelude.{
  Bool, true, false, List, [], ◌∷◌, ◌++◌, any, is_empty, if◌then◌else◌, if_intro, Try, ok, throw,
  ◌>>=◌, ◌≡◌, refl,
}
use btc_eth_indexer.Types.{Chain, Block}
use btc_eth_indexer.Storage.{
  Transaction, Event, Contract, Token, TokenTransfer, Database, preparing, copying_blocks,
  copying_transactions, copying_events, copying_contracts, inserting_tokens, Postgres, refused,
}
use btc_eth_indexer.Storage.Outcomes.{guarded, transact-throw}
use btc_eth_indexer.Storage.Duplicates.{any-append}
use btc_eth_indexer.Storage.Writing.{
  copy_blocks, copy_transactions, with_blocks, with_transactions, put_blocks, put_transactions,
}
use btc_eth_indexer.Storage.EventWriting.{
  copy_rows, same_event, same_contract, same_token, close_copy, put_events, put_contracts,
  put_tokens, fill_tables, events_body, write_blocks_with_events,
}

-- COPY fails at a row whose key is there
pub copy_rows-duplicate {ℓ} :
    {A : Type ℓ} (same : A → A → Bool) (before : List A) (x : A) (behind rows : List A)
    → any (same x) rows ≡ true
    → copy_rows same (before ++ x ∷ behind) rows ≡ throw
unfolding copy_rows
copy_rows-duplicate same [] x behind rows e = rw e refl
copy_rows-duplicate same (y ∷ before) x behind rows e =
    if_intro (λ o. o ≡ throw) (any (same y) rows) throw _ (λ _. refl)
      (λ _.
        copy_rows-duplicate same before x behind (rows ++ y ∷ [])
          (any-append (same x) rows (y ∷ []) e))

bind-throw_with {ℓ κ} :
    {A : Type ℓ} {B : Type κ} (m : Try A) (f : A → Try B)
    → ((a : A) → m ≡ ok a → f a ≡ throw)
    → (m >>= f) ≡ throw
bind-throw_with (ok a) f h = h a refl
bind-throw_with throw f h = refl

module _ (pg : Postgres) (flushes : pg.flushes_on_close ≡ true) where
  stopped :
      (failing : Bool) (o : Try (List Token)) (f : List Token → Try Database)
      → o ≡ throw
      → (if failing then throw else o >>= f) ≡ throw
  stopped true o f e = refl
  stopped false o f e = rw e refl

  stopped_behind :
      (failing : Bool) (db : Database) (k : Database → Try Database)
      → k db ≡ throw
      → ((if failing then throw else ok db) >>= k) ≡ throw
  stopped_behind true db k e = refl
  stopped_behind false db k e = e

  close_copy-duplicate :
      (before : List Token) (t : Token) (behind rows : List Token)
      → any (same_token t) rows ≡ true
      → close_copy pg (before ++ t ∷ behind) rows ≡ throw
  close_copy-duplicate before t behind rows e =
      rw flushes (copy_rows-duplicate same_token before t behind rows e)

  put_tokens-duplicate :
      (before : List Token) (t : Token) (behind : List Token) (db : Database)
      → any (same_token t) db.tokens ≡ true
      → put_tokens pg (before ++ t ∷ behind) db ≡ throw
  put_tokens-duplicate [] t behind db e =
      stopped (pg.fails inserting_tokens) _ _ (close_copy-duplicate [] t behind db.tokens e)
  put_tokens-duplicate (u ∷ before) t behind db e =
      stopped (pg.fails inserting_tokens) _ _
        (close_copy-duplicate (u ∷ before) t behind db.tokens e)

  abbrev IsStored : Token → Database → Type 0
  IsStored t d = any (same_token t) d.tokens ≡ true

  fill_tables-duplicate :
      (c : Chain) (bs : List Block) (ts : List Transaction) (es : List Event) (cs : List Contract)
      (before : List Token) (t : Token) (behind : List Token) (fs : List TokenTransfer)
      (db : Database)
      → IsStored t db
      → fill_tables pg c bs ts es cs (before ++ t ∷ behind) fs db ≡ throw
  fill_tables-duplicate c bs ts es cs before t behind fs db e =
      bind-throw_with (put_blocks pg bs db) _ (λ d1 e1.
        let p1 =
          guarded pg (IsStored t) false copying_blocks (copy_blocks bs db.blocks) (with_blocks db)
            db d1 e (λ _. e) e1 in
        bind-throw_with (put_transactions pg ts d1) _ (λ d2 e2.
          let p2 =
            guarded pg (IsStored t) false copying_transactions
              (copy_transactions pg ts d1.transactions) (with_transactions d1) d1 d2 p1 (λ _. p1)
              e2 in
          bind-throw_with (put_events pg es d2) _ (λ d3 e3.
            let p3 =
              guarded pg (IsStored t) (is_empty es) copying_events
                (copy_rows same_event es d2.events) (λ rows. record d2 { events = rows }) d2 d3 p2
                (λ _. p2) e3 in
            bind-throw_with (put_contracts pg cs d3) _ (λ d4 e4.
              let p4 =
                guarded pg (IsStored t) (is_empty cs) copying_contracts
                  (copy_rows same_contract cs d3.contracts) (λ rows. record d3 { contracts = rows })
                  d3 d4 p3 (λ _. p3) e4 in
              rw (put_tokens-duplicate before t behind d4 p4) refl))))

  -- If closing a COPY sends what it holds, then a write with events that brings a token that is
  -- stored already is refused and changes nothing.
  pub write_blocks_with_events-duplicate :
      (c : Chain) (b : Block) (bs : List Block) (ts : List Transaction) (es : List Event)
      (cs : List Contract) (before : List Token) (t : Token) (behind : List Token)
      (fs : List TokenTransfer) (db : Database)
      → any (same_token t) db.tokens ≡ true
      → write_blocks_with_events pg c (b ∷ bs) ts es cs (before ++ t ∷ behind) fs db ≡ (db, refused)
  unfolding write_blocks_with_events
  write_blocks_with_events-duplicate c b bs ts es cs before t behind fs db e =
      rw
        (transact-throw pg (events_body pg c (b ∷ bs) ts es cs (before ++ t ∷ behind) fs) db (
          stopped_behind (pg.fails preparing) db
            (fill_tables pg c (b ∷ bs) ts es cs (before ++ t ∷ behind) fs)
            (fill_tables-duplicate c (b ∷ bs) ts es cs before t behind fs db e)))
        refl
