-- ===== src/Prelude/Splitting.antt =====
-- Texts split at a separator and joined by one.
use Prim.Native.Nat.{ℕ}
use mathlib.Core.Path.{◌≡◌, refl, ap, ◌∙◌}
use mathlib.Core.Logic.{◌≢◌}
use mathlib.Core.List.{List, [], ◌∷◌, ◌++◌}
use native.Mathlib.Omega.{arith}
use btc_eth_indexer.Prelude.Tests.{◌==◌, if◌then◌else◌}
use btc_eth_indexer.Prelude.Lists.{All}
use btc_eth_indexer.Prelude.Strings.{Text}

abbrev pub cons_head : ℕ → List Text → List Text
cons_head c [] = (c ∷ []) ∷ []
cons_head c (s ∷ r) = (c ∷ s) ∷ r

module _ (sep : ℕ) where
  -- `s.split(sep)`
  unfoldable pub split_on : Text → List Text
  split_on [] = [] ∷ []
  split_on (c ∷ s) = let rest = split_on s in if c == sep then [] ∷ rest else cons_head c rest

  -- `xs.join(sep)`
  unfoldable pub join_with : List Text → Text
  join_with [] = []
  join_with (x ∷ []) = x
  join_with (x ∷ y ∷ xs) = x ++ (sep ∷ join_with (y ∷ xs))

  -- free of the separator
  abbrev pub Lacks : Text → Type 0
  Lacks = All (λ c. c ≢ sep)

  pub split_on_part : (s : Text) → Lacks s → split_on s ≡ s ∷ []
  unfolding split_on
  split_on_part [] h = refl
  split_on_part (c ∷ s) h = ground (arith, split_on_part s)

  pub split_on-append : (s r : Text) → Lacks s → split_on (s ++ (sep ∷ r)) ≡ s ∷ split_on r
  unfolding split_on
  split_on-append [] r h = ground arith
  split_on-append (c ∷ s) r h = ground (arith, split_on-append s r)

  -- Splitting gives back the parts that were joined, if there is one and none has the separator.
  pub split_on-join_with :
      (x : Text) (xs : List Text) → All Lacks (x ∷ xs) → split_on (join_with (x ∷ xs)) ≡ x ∷ xs
  unfolding join_with
  split_on-join_with x [] (h, _) = split_on_part x h
  split_on-join_with x (y ∷ xs) (h, hs) =
      split_on-append x (join_with (y ∷ xs)) h ∙ ap (λ r. x ∷ r) (split_on-join_with y xs hs)
