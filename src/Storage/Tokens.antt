-- ===== src/Storage/Tokens.antt =====
-- internal/storage/storage.go: the token balances that a write collects from transfers and adds up.
-- The map from addresses to maps from tokens is a list of entries, one for a pair of both.
use btc_eth_indexer.Prelude.{
  Bool, true, false, Bool-cases, inl, inr, not, ◌&&◌, List, [], ◌∷◌, is_empty, Option, some, Text,
  codes, text_eq, text_eq_iff, if◌then◌else◌, ℤ, pos, ◌+ℤ◌, ◌-ℤ◌, int_laws, sum, ◌≡◌, refl, sym,
  ◌∙◌, arith,
}
use btc_eth_indexer.Types.{Chain}
use btc_eth_indexer.Storage.{chain_eq, chain_eq_same, TokenTransfer, amount_of, amount}

abbrev pub zero_address : Text
zero_address = codes "0x0000000000000000000000000000000000000000"

-- an owner, a token and a change
abbrev pub Delta : Type 0
Delta = Text × Text × ℤ

-- `tokenBalDiff[owner][token]`, made when it is missing, and changed by an amount
unfoldable pub move : Text → Text → ℤ → List Delta → List Delta
move owner token n [] = (owner, token, n) ∷ []
move owner token n ((o, k, m) ∷ ds) =
    let rest = move owner token n ds in
    if text_eq o owner && text_eq k token then (o, k, m +ℤ n) ∷ ds else (o, k, m) ∷ rest

-- the mint check and the burn check
abbrev pub is_holder : Text → Bool
is_holder a = not (is_empty a) && not (text_eq a zero_address)

abbrev pub move_side : Text → Text → ℤ → List Delta → List Delta
move_side owner token n ds = if is_holder owner then move owner token n ds else ds

-- the loop over the transfers
unfoldable pub token_deltas : List TokenTransfer → List Delta → List Delta
unfolding move
token_deltas [] ds = ds
token_deltas (t ∷ ts) ds = token_deltas ts (
    move_side t.to_addr t.token_address (amount t.amount)
      (move_side t.from_addr t.token_address (pos 0 -ℤ amount t.amount) ds))

abbrev pub TokenBalances : Type 0
TokenBalances = Chain → Text → Text → Option ℤ

-- `updateTokenBalances`
unfoldable pub update_token_balances : Chain → List Delta → TokenBalances → TokenBalances
update_token_balances c [] old = old
update_token_balances c ((o, k, n) ∷ ds) old = update_token_balances c ds (λ d a t.
    if chain_eq d c && (text_eq o a && text_eq k t)
    then some (amount_of (old d a t) +ℤ n)
    else old d a t)

-- what the entries that pass a test on the owner and the token add up to
abbrev pub moved : (Text → Text → Bool) → List Delta → ℤ
moved p [] = pos 0
moved p ((o, k, n) ∷ ds) = (if p o k then n else pos 0) +ℤ moved p ds

-- what the transfers bring, and what they take, at the owners and tokens that pass the test
abbrev pub brought : (Text → Text → Bool) → TokenTransfer → ℤ
brought p t = if is_holder t.to_addr && p t.to_addr t.token_address then amount t.amount else pos 0

abbrev pub taken : (Text → Text → Bool) → TokenTransfer → ℤ
taken p t =
    if is_holder t.from_addr && p t.from_addr t.token_address then amount t.amount else pos 0

module _ (p : Text → Text → Bool) where
  move-moved :
      (owner token : Text) (n : ℤ) (ds : List Delta)
      → moved p (move owner token n ds) ≡ moved p ds +ℤ (if p owner token then n else pos 0)
  unfolding move
  move-moved owner token n [] = omega int_laws
  move-moved owner token n ((o, k, m) ∷ ds) =
      elim (Bool-cases (text_eq o owner && text_eq k token)) [
        | inl e ↦
            let same : (o ≡ owner) × (k ≡ token) =
              ground (arith, text_eq_iff o owner, text_eq_iff k token) in
            rw (e, sym same.0, sym same.1, more (p o k) m n) (omega int_laws)
        | inr e ↦ rw (e, move-moved owner token n ds) (omega int_laws)
      ]
    where
      more :
          (b : Bool) (m n : ℤ)
          → (if b then m +ℤ n else pos 0) ≡ (if b then m else pos 0) +ℤ (if b then n else pos 0)
      more true m n = refl
      more false m n = omega int_laws

  side-moved :
      (owner token : Text) (n : ℤ) (ds : List Delta)
      → moved p (move_side owner token n ds)
        ≡ moved p ds +ℤ (if is_holder owner && p owner token then n else pos 0)
  side-moved owner token n ds = side (is_holder owner) refl
    where
      side :
          (b : Bool)
          → is_holder owner ≡ b
          → moved p (if b then move owner token n ds else ds)
            ≡ moved p ds +ℤ (if b && p owner token then n else pos 0)
      side true e = move-moved owner token n ds
      side false e = omega int_laws

  loss : (b : Bool) (n : ℤ) → (if b then pos 0 -ℤ n else pos 0) ≡ pos 0 -ℤ (if b then n else pos 0)
  loss true n = refl
  loss false n = omega int_laws

  -- The changes that are collected from transfers, at the owners and tokens that pass a test, add up
  -- to what the transfers bring there less what they take there, without the mints and the burns.
  pub token_deltas-moved :
      (ts : List TokenTransfer) (ds : List Delta)
      → moved p (token_deltas ts ds) ≡ moved p ds +ℤ (sum (brought p) ts -ℤ sum (taken p) ts)
  unfolding token_deltas
  token_deltas-moved [] ds = omega int_laws
  token_deltas-moved (t ∷ ts) ds =
      token_deltas-moved ts _
      ∙ rw
          (
            side-moved t.to_addr t.token_address (amount t.amount)
                (move_side t.from_addr t.token_address (pos 0 -ℤ amount t.amount) ds),
            side-moved t.from_addr t.token_address (pos 0 -ℤ amount t.amount) ds,
            loss (is_holder t.from_addr && p t.from_addr t.token_address) (amount t.amount),
          )
          (omega int_laws)

module _ (c : Chain) (a t : Text) where
  abbrev pub is_entry : Text → Text → Bool
  is_entry o k = text_eq o a && text_eq k t

  update-moved :
      (ds : List Delta) (old : TokenBalances)
      → amount_of (update_token_balances c ds old c a t)
        ≡ amount_of (old c a t) +ℤ moved is_entry ds
  unfolding update_token_balances
  update-moved [] old = omega int_laws
  update-moved ((o, k, n) ∷ ds) old =
      update-moved ds _ ∙ rw (chain_eq_same c) (added (text_eq o a && text_eq k t))
    where
      added :
          (b : Bool)
          → amount_of (if b then some (amount_of (old c a t) +ℤ n) else old c a t)
              +ℤ moved is_entry ds
            ≡ amount_of (old c a t) +ℤ ((if b then n else pos 0) +ℤ moved is_entry ds)
      added true = omega int_laws
      added false = omega int_laws

  -- A write adds to the balance of an owner in a token what the transfers of the token bring to the
  -- owner, less what they take from the owner; nothing is kept for the empty and the zero address.
  pub token_deltas-update_token_balances :
      (ts : List TokenTransfer) (old : TokenBalances)
      → amount_of (update_token_balances c (token_deltas ts []) old c a t)
        ≡ amount_of (old c a t) +ℤ (sum (brought is_entry) ts -ℤ sum (taken is_entry) ts)
  token_deltas-update_token_balances ts old =
      rw (update-moved (token_deltas ts []) old, token_deltas-moved is_entry ts []) (omega int_laws)
