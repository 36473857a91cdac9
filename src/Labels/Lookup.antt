-- ===== src/Labels/Lookup.antt =====
-- Reading a table keyed by texts, and keys that a lower-cased text can meet.
use btc_eth_indexer.Prelude.{
  ℕ, true, List, [], ◌∷◌, Option, none, some, Text, text_eq, text_eq_iff, to_lower, lower_unit,
  if◌then◌else◌, ◌≡◌, refl, arith, Bool-cases, inl, inr, ap, sym, ◌∙◌,
}

module _ {ℓ} {V : Type ℓ} where
  -- `table[key] || null`, for a table whose values are objects
  unfoldable pub lookup : Text → List (Text × V) → Option V
  lookup key [] = none
  lookup key ((k, v) ∷ rest) = if text_eq k key then some v else lookup key rest

  -- the entries whose key is its own lower case
  unfoldable pub lower_keyed : List (Text × V) → List (Text × V)
  lower_keyed [] = []
  lower_keyed ((k, v) ∷ rest) =
      let others = lower_keyed rest in if text_eq (to_lower k) k then (k, v) ∷ others else others

lower_unit_idem : (c : ℕ) → lower_unit (lower_unit c) ≡ lower_unit c
unfolding lower_unit
lower_unit_idem c = ground arith

pub to_lower_idem : (s : Text) → to_lower (to_lower s) ≡ to_lower s
unfolding to_lower
to_lower_idem [] = refl
to_lower_idem (c ∷ s) = cc (lower_unit_idem c, to_lower_idem s)

-- A lower-cased text meets only the lower-case keys of a table.
pub lookup-lower_keyed {ℓ} :
    {V : Type ℓ} (s : Text) (table : List (Text × V))
    → lookup (to_lower s) table ≡ lookup (to_lower s) (lower_keyed table)
unfolding lookup lower_keyed
lookup-lower_keyed s [] = refl
lookup-lower_keyed s ((k, v) ∷ rest) = elim (Bool-cases (text_eq k (to_lower s))) [
  | inl same ↦
      let e : k ≡ to_lower s = (text_eq_iff k (to_lower s)).0 same in
      let low : text_eq (to_lower k) k ≡ true =
        (text_eq_iff (to_lower k) k).1 (ap to_lower e ∙ to_lower_idem s ∙ sym e) in
      rw (low, same) refl
  | inr other ↦ elim (Bool-cases (text_eq (to_lower k) k)) [
    | inl low ↦ rw (low, other) (lookup-lower_keyed s rest)
    | inr high ↦ rw (high, other) (lookup-lower_keyed s rest)
  ]
]
