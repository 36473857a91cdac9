-- ===== src/Storage/Balances.antt =====
-- The balance that the statistics keep is the balance that the transactions add up to.
use btc_eth_indexer.Prelude.{
  true, false, Bool, Bool-cases, inl, inr, List, [], ◌∷◌, filter, Option, none, some, Text, text_eq,
  text_eq_iff, if◌then◌else◌, ℤ, pos, ◌+ℤ◌, ◌-ℤ◌, int_laws, sum, ◌≡◌, refl, sym, ap, ◌∙◌, arith,
}
use btc_eth_indexer.Types.{Chain}
use btc_eth_indexer.Storage.{
  chain_eq, chain_eq_same, Transaction, TransactionRow, amount_of, amount, StatsRow,
}
use btc_eth_indexer.Storage.Statistics.{
  Diff, Diffs, no_diff, Stats, add_sender, add_receiver, touch, touch_side, add_tx, aggregate,
  upsert_stats, put_stats, update_address_stats,
}
use btc_eth_indexer.Storage.Writing.{
  nullable, is_address, is_counted, received, sent, paid, address_balance,
}

-- the balance of a row of `address_stats`, 0 where there is none
abbrev pub balance_of : Option StatsRow → ℤ
balance_of none = pos 0
balance_of (some r) = r.balance

module _ (c : Chain) (a : Text) where
  -- what the entries of the address add to its balance
  abbrev pub entry : Text × Diff → ℤ
  entry e = if text_eq e.0 a then amount_of e.1.balance_delta else pos 0

  put_stats-balance :
      (k : Text) (d : Diff) (old : Stats) (own : Bool)
      → chain_eq c c ≡ true
      → text_eq k a ≡ own
      → balance_of (put_stats c k d old c a)
        ≡ balance_of (old c a) +ℤ (if own then amount_of d.balance_delta else pos 0)
  put_stats-balance k d old true e f = rw (e, f) (upserted (old c a))
    where
      upserted :
          (o : Option StatsRow)
          → (upsert_stats d o).balance ≡ balance_of o +ℤ amount_of d.balance_delta
      upserted none = omega int_laws
      upserted (some r) = refl
  put_stats-balance k d old false e f = rw (e, f) (omega int_laws)

  -- however the entries are ordered, a balance grows by what the entries of the address say
  update_address_stats-balance :
      (m : Diffs) (old : Stats)
      → balance_of (update_address_stats c m old c a) ≡ balance_of (old c a) +ℤ sum entry m
  unfolding update_address_stats
  update_address_stats-balance [] old = omega int_laws
  update_address_stats-balance ((k, d) ∷ m) old =
      update_address_stats-balance m (put_stats c k d old)
      ∙ rw (put_stats-balance k d old (text_eq k a) (chain_eq_same c) refl) (omega int_laws)

  -- the entry of an address, before and behind a change
  grown :
      (own : Bool) (x y n : ℤ)
      → y ≡ x +ℤ n
      → (if own then y else pos 0) ≡ (if own then x else pos 0) +ℤ (if own then n else pos 0)
  grown true x y n h = h
  grown false x y n h = omega int_laws

  grown_new :
      (own : Bool) (y n : ℤ)
      → y ≡ pos 0 +ℤ n
      → (if own then y else pos 0) +ℤ pos 0 ≡ pos 0 +ℤ (if own then n else pos 0)
  grown_new true y n h = rw h (omega int_laws)
  grown_new false y n h = omega int_laws

  touch-entry :
      (k : Text) (f : Diff → Diff) (n : ℤ)
      → ((d : Diff) → amount_of (f d).balance_delta ≡ amount_of d.balance_delta +ℤ n)
      → (m : Diffs) → sum entry (touch k f m) ≡ sum entry m +ℤ (if text_eq k a then n else pos 0)
  unfolding touch
  touch-entry k f n grows [] =
      grown_new (text_eq k a) (amount_of (f no_diff).balance_delta) n (grows no_diff)
  touch-entry k f n grows ((j, d) ∷ m) = elim (Bool-cases (text_eq j k)) [
    | inl e ↦
        let same : j ≡ k = ground (arith, text_eq_iff j k) in
        rw
          (
            e,
            sym same,
            grown (text_eq j a) (amount_of d.balance_delta) (amount_of (f d).balance_delta) n
                (grows d),
          )
          (omega int_laws)
    | inr e ↦ rw (e, touch-entry k f n grows m) (omega int_laws)
  ]

  -- what a transaction changes in the balance of the address: its value is received, and its value
  -- and its fee are spent
  abbrev pub earned : Transaction → ℤ
  earned t = if is_address a (nullable t.to_addr) then amount t.value else pos 0

  abbrev pub spent : Transaction → ℤ
  spent t = if is_address a (nullable t.from_addr) then amount t.value +ℤ amount t.fee else pos 0

  abbrev pub change : Transaction → ℤ
  change t = earned t -ℤ spent t

  side_entry :
      (k : Text) (f : Diff → Diff) (n : ℤ)
      → ((d : Diff) → amount_of (f d).balance_delta ≡ amount_of d.balance_delta +ℤ n)
      → (m : Diffs)
      → sum entry (touch_side k f m)
        ≡ sum entry m +ℤ (if is_address a (nullable k) then n else pos 0)
  side_entry [] f n grows m = omega int_laws
  side_entry (x ∷ k) f n grows m = touch-entry (x ∷ k) f n grows m

  loss :
      (own : Bool) (n : ℤ)
      → (if own then pos 0 -ℤ n else pos 0) ≡ pos 0 -ℤ (if own then n else pos 0)
  loss true n = refl
  loss false n = omega int_laws

  add_tx-entry : (t : Transaction) (m : Diffs) → sum entry (add_tx t m) ≡ sum entry m +ℤ change t
  add_tx-entry t m =
      rw
        (
          side_entry t.to_addr (add_receiver t) (amount t.value) (λ d. refl)
              (touch_side t.from_addr (add_sender t) m),
          side_entry t.from_addr (add_sender t) (pos 0 -ℤ (amount t.value +ℤ amount t.fee))
              (λ d. omega int_laws) m,
          loss (is_address a (nullable t.from_addr)) (amount t.value +ℤ amount t.fee),
        )
        (omega int_laws)

  aggregate-entry :
      (ts : List Transaction) (m : Diffs)
      → sum entry (aggregate ts m) ≡ sum entry m +ℤ sum change ts
  unfolding aggregate
  aggregate-entry [] m = omega int_laws
  aggregate-entry (t ∷ ts) m =
      rw (aggregate-entry ts (add_tx t m), add_tx-entry t m) (omega int_laws)

  -- The statistics that are collected from transactions change the balance of an address by the sum
  -- of what each transaction changes, whatever else the map has.
  pub statistics-change :
      (ts : List Transaction) (old : Stats)
      → balance_of (update_address_stats c (aggregate ts []) old c a)
        ≡ balance_of (old c a) +ℤ sum change ts
  statistics-change ts old =
      rw (update_address_stats-balance (aggregate ts []) old, aggregate-entry ts [])
        (omega int_laws)

  -- what a row adds to the balance that is computed
  abbrev pub part : TransactionRow → ℤ
  part r = if is_counted c a r then received c a r -ℤ sent c a r -ℤ paid c a r else pos 0

  counted_part :
      (r : TransactionRow) (rows : List TransactionRow) (counted : Bool)
      → sum (received c a) (if counted then r ∷ rows else rows)
          -ℤ sum (sent c a) (if counted then r ∷ rows else rows)
          -ℤ sum (paid c a) (if counted then r ∷ rows else rows)
        ≡ (if counted then received c a r -ℤ sent c a r -ℤ paid c a r else pos 0)
          +ℤ (sum (received c a) rows -ℤ sum (sent c a) rows -ℤ sum (paid c a) rows)
  counted_part r rows true = omega int_laws
  counted_part r rows false = omega int_laws

  pub address_balance-sum : (rows : List TransactionRow) → address_balance c a rows ≡ sum part rows
  unfolding address_balance
  address_balance-sum [] = omega int_laws
  address_balance-sum (r ∷ rows) =
      counted_part r (filter (is_counted c a) rows) (is_counted c a r)
      ∙ ap (λ n. part r +ℤ n) (address_balance-sum rows)
