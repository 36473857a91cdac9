-- ===== src/Storage/Rows.antt =====
-- The rows of transactions that are written add what the transactions change.
use btc_eth_indexer.Prelude.{
  Bool, true, false, ◌||◌, ◌&&◌, List, [], ◌∷◌, ◌++◌, any, Option, none, some, Text, text_eq,
  if◌then◌else◌, if_false, Bool-cases, inl, inr, ok, throw, ok_inj, bind-ok, ℤ, pos, ◌+ℤ◌, ◌-ℤ◌,
  int_laws, sum, sum-append, set_string, All, ◌≡◌, refl, sym, ap, ◌∙◌, arith,
}
use btc_eth_indexer.Types.{Chain}
use btc_eth_indexer.Storage.{
  chain_eq_same, orphaned, Transaction, TransactionRow, Postgres, amount_of, amount,
}
use btc_eth_indexer.Storage.Writing.{
  row_with, row_of, nullable, nullable_numeric, not_null, same_tx, copy_transactions, is_address,
}
use btc_eth_indexer.Storage.Balances.{change, part}

-- a text of an amount that the server and the program read alike
pub data IsRead (pg : Postgres) : Text → Type 0 where
  missing : IsRead pg []
  number : (s : Text) (n : ℤ) → set_string s ≡ some n → pg.numeric s ≡ some n → IsRead pg s

-- A transaction of the chain that counts, with readable amounts.
pub record IsSound (pg : Postgres) (c : Chain) (t : Transaction) : Type 0 where
  pub chain : t.chain_id ≡ c
  pub live : text_eq t.status orphaned ≡ false
  pub value_read : IsRead pg t.value
  pub fee_read : IsRead pg t.fee

module _ (pg : Postgres) where
  amount-nil : amount [] ≡ pos 0
  unfolding set_string
  amount-nil = refl

  read_amount :
      (s : Text) (v : Option ℤ)
      → IsRead pg s
      → nullable_numeric pg s ≡ ok v
      → amount_of v ≡ amount s
  read_amount _ v missing e = ap amount_of (sym (ok_inj none v e)) ∙ sym amount-nil
  read_amount [] v (number _ n e f) h = ap amount_of (sym (ok_inj none v h)) ∙ sym amount-nil
  read_amount (x ∷ s) v (number _ n e f) h =
      sym (ap amount_of (ok_inj (some n) v (ap not_null (sym f) ∙ h))) ∙ sym (ap amount_of e)

module _ (c : Chain) (a : Text) where
  counted_amount :
      (f g : Bool) (v n : ℤ)
      → (if (f || g) && true
          then (if g then v else pos 0) -ℤ (if f then v else pos 0) -ℤ (if f then n else pos 0)
          else pos 0)
        ≡ (if g then v else pos 0) -ℤ (if f then v +ℤ n else pos 0)
  counted_amount true true v n = omega int_laws
  counted_amount true false v n = omega int_laws
  counted_amount false true v n = omega int_laws
  counted_amount false false v n = omega int_laws

  row_with-part :
      (pg : Postgres) (t : Transaction) (v f : Option ℤ)
      → IsSound pg c t
      → amount_of v ≡ amount t.value
      → amount_of f ≡ amount t.fee
      → part c a (row_with t v f) ≡ change c a t
  row_with-part pg t v f h e k =
      rw (h.chain, chain_eq_same c, h.live, e, k)
        (counted_amount (is_address a (nullable t.from_addr)) (is_address a (nullable t.to_addr))
          (amount t.value) (amount t.fee))

  row_of-part :
      (pg : Postgres) (t : Transaction) (r : TransactionRow)
      → IsSound pg c t
      → row_of pg t ≡ ok r
      → part c a r ≡ change c a t
  row_of-part pg t r h e =
      let (v, ev, rest) = bind-ok (nullable_numeric pg t.value) _ r e in
      let (f, ef, done) = bind-ok (nullable_numeric pg t.fee) _ r rest in
      ap (part c a) (sym (ok_inj (row_with t v f) r done))
      ∙ row_with-part pg t v f h (read_amount pg t.value v h.value_read ev)
          (read_amount pg t.fee f h.fee_read ef)

  -- The copied rows add to the computed balance what the transactions change.
  pub copy_transactions-part :
      (pg : Postgres) (ts : List Transaction) (rows after : List TransactionRow)
      → All (IsSound pg c) ts
      → copy_transactions pg ts rows ≡ ok after
      → sum (part c a) after ≡ sum (part c a) rows +ℤ sum (change c a) ts
  unfolding copy_transactions
  copy_transactions-part pg [] rows after h e =
      ap (sum (part c a)) (sym (ok_inj rows after e)) ∙ omega int_laws
  copy_transactions-part pg (t ∷ ts) rows after (h, hs) e =
      let (r, er, rest) = bind-ok (row_of pg t) _ after e in
      let copied : copy_transactions pg ts (rows ++ r ∷ []) ≡ ok after =
        elim (Bool-cases (any (same_tx t) rows)) [
          | inl k ↦ ground arith
          | inr k ↦ if_false (any (same_tx t) rows) throw _ (ok after) k rest
        ] in
      rw
        (
          copy_transactions-part pg ts (rows ++ r ∷ []) after hs copied,
          sum-append (part c a) rows (r ∷ []),
          row_of-part pg t r h er,
        )
        (omega int_laws)
