-- ===== src/Storage/Outcomes.antt =====
-- A database transaction is committed whole or changes nothing.
use btc_eth_indexer.Prelude.{
  true, false, Bool, if◌then◌else◌, ok_inj, bind-ok, subst, ◌>>=◌, ap, sym, ◌∙◌, Bool-cases, inl,
  inr, if_false, if_intro, Try, ok, throw, ◌≡◌, refl, arith,
}
use btc_eth_indexer.Storage.{
  Database, Call, starting, committing, Postgres, Result, done, refused, statement, conclude,
  transact,
}

module _ (pg : Postgres) where
  pub statement-ok :
      (call : Call) (o : Try Database) (after : Database)
      → statement pg call o ≡ ok after
      → o ≡ ok after
  statement-ok call o after e = elim (Bool-cases (pg.fails call)) [
    | inl h ↦ ground arith
    | inr h ↦ if_false (pg.fails call) throw o (ok after) h e
  ]

  -- a statement that has a result, and what follows it
  pub step-ok :
      (call : Call) (d : Database) (k : Database → Try Database) (after : Database)
      → (statement pg call (ok d) >>= k) ≡ ok after
      → k d ≡ ok after
  step-ok call d k after e = elim (Bool-cases (pg.fails call)) [
    | inl h ↦ ground arith
    | inr h ↦ ap (λ b. (if b then throw else ok d) >>= k) (sym h) ∙ e
  ]

  module _ {κ} (P : Database → Type κ) where
    pub conclude-preserves :
        (db : Database) (o : Try Database)
        → P db
        → ((after : Database) → o ≡ ok after → P after)
        → P (conclude pg db o).0
    conclude-preserves db throw p h = p
    conclude-preserves db (ok after) p h =
        if_intro {A = Database × Result} (λ r. P r.0) (pg.fails committing) _ _ (λ _. p)
          (λ _. h after refl)

    -- what the body preserves wherever it returns, the transaction preserves
    pub transact-preserves :
        (body : Database → Try Database) (db : Database)
        → P db
        → ((after : Database) → body db ≡ ok after → P after)
        → P (transact pg body db).0
    transact-preserves body db p h =
        if_intro {A = Database × Result} (λ r. P r.0) (pg.fails starting) _ _ (λ _. p)
          (λ _. conclude-preserves db (body db) p h)

  conclude-refused :
      (db : Database) (o : Try Database)
      → (conclude pg db o).1 ≡ refused
      → (conclude pg db o).0 ≡ db
  conclude-refused db throw e = refl
  conclude-refused db (ok after) e = ground arith

  -- a transaction that is refused changes nothing
  pub transact-refused :
      (body : Database → Try Database) (db : Database)
      → (transact pg body db).1 ≡ refused
      → (transact pg body db).0 ≡ db
  transact-refused body db e =
      if_intro {A = Database × Result} (λ r. r.1 ≡ refused → r.0 ≡ db) (pg.fails starting) _ _
        (λ _ _. refl) (λ _. conclude-refused db (body db)) e

  -- a transaction whose body returns an error is refused
  pub transact-throw :
      (body : Database → Try Database) (db : Database)
      → body db ≡ throw
      → transact pg body db ≡ (db, refused)
  transact-throw body db e =
      rw e (if_intro (λ r. r ≡ (db, refused)) (pg.fails starting) _ _ (λ _. refl) (λ _. refl))

  -- without failures of the server, a body that returns is committed
  pub transact-ok :
      (body : Database → Try Database) (db after : Database)
      → pg.fails starting ≡ false
      → pg.fails committing ≡ false
      → body db ≡ ok after
      → transact pg body db ≡ (after, done)
  transact-ok body db after s k e = rw (s, e, k) refl

  conclude-done :
      (db : Database) (o : Try Database) → (conclude pg db o).1 ≡ done → o ≡ ok (conclude pg db o).0
  conclude-done db throw e = ground arith
  conclude-done db (ok after) e =
      if_intro {A = Database × Result} (λ r. r.1 ≡ done → ok after ≡ ok r.0) (pg.fails committing) _
        _ (λ _ k. ground arith) (λ _ _. refl) e

  -- a transaction that is done has the result of its body
  pub transact-done :
      (body : Database → Try Database) (db : Database)
      → (transact pg body db).1 ≡ done
      → body db ≡ ok (transact pg body db).0
  transact-done body db e =
      if_intro {A = Database × Result} (λ r. r.1 ≡ done → body db ≡ ok r.0) (pg.fails starting) _ _
        (λ _ k. ground arith) (λ _. conclude-done db (body db)) e

  -- a statement that is left out or gives rows to put in a table
  pub guarded {ℓ κ} :
      {R : Type ℓ} (P : Database → Type κ) (skipped : Bool) (call : Call) (rows : Try R)
      (put : R → Database) (db after : Database)
      → P db
      → ((r : R) → P (put r))
      → (if skipped then ok db else statement pg call (rows >>= λ r. ok (put r))) ≡ ok after
      → P after
  guarded P true call rows put db after p h e = subst P (ok_inj db after e) p
  guarded P false call rows put db after p h e =
      let (r, _, same) = bind-ok rows _ after (statement-ok call _ after e) in
      subst P (ok_inj (put r) after same) (h r)
