-- ===== src/Coordinator/Growth.antt =====
-- What the storage finds at a height when blocks are added.
use btc_eth_indexer.Prelude.{
  ℕ, suc, ◌+◌, ◌==◌, Bool, true, false, ◌&&◌, List, [], ◌∷◌, ◌++◌, filter, Option, none, some,
  text_eq, if◌then◌else◌, append-nil, filter-append, append_assoc, ◌≡◌, refl, sym, ap, ◌∙◌, subst,
  arith,
}
use btc_eth_indexer.Types.{Chain, Block}
use btc_eth_indexer.Storage.{chain_eq_same, orphaned, is_block_at, last_row, block_at}

-- the block of a height and the block above it, where both are there
abbrev pub Links : Option Block → Option Block → Type 0
Links none o = Unit
Links (some p) none = Unit
Links (some p) (some b) = b.parent_hash ≡ p.hash

-- Every block names the block below it as its parent.
abbrev pub IsLinked : Chain → List Block → Type 0
IsLinked c bs = (k : ℕ) → Links (block_at c k bs) (block_at c (suc k) bs)

-- No block is above a height.
abbrev pub IsTop : Chain → ℕ → List Block → Type 0
IsTop c h bs = (k : ℕ) → block_at c (suc (h + k)) bs ≡ none

-- Blocks of a chain from a height on, each the parent of the next.
pub data IsRun (c : Chain) : ℕ → Block → List Block → Type 0 where
  single :
      (h : ℕ) (b : Block)
      → b.height ≡ h
      → b.chain_id ≡ c
      → text_eq b.status orphaned ≡ false
      → IsRun c h b []
  more :
      (h : ℕ) (b next : Block) (bs : List Block)
      → b.height ≡ h
      → b.chain_id ≡ c
      → text_eq b.status orphaned ≡ false
      → next.parent_hash ≡ b.hash
      → IsRun c (suc h) next bs
      → IsRun c h b (next ∷ bs)

last_row-append : (xs : List Block) (b : Block) → last_row (xs ++ b ∷ []) ≡ some b
last_row-append [] b = refl
last_row-append (x ∷ []) b = refl
last_row-append (x ∷ y ∷ xs) b = last_row-append (y ∷ xs) b

module _ (c : Chain) where
  counts :
      (k : ℕ) (b : Block)
      → b.chain_id ≡ c
      → text_eq b.status orphaned ≡ false
      → is_block_at c k b ≡ (b.height == k && true)
  counts k b own live = simp (own, chain_eq_same c, live)

  -- one block more
  block_at-append :
      (k : ℕ) (rows : List Block) (b : Block)
      → b.chain_id ≡ c
      → text_eq b.status orphaned ≡ false
      → block_at c k (rows ++ b ∷ []) ≡ (if b.height == k then some b else block_at c k rows)
  block_at-append k rows b own live =
      rw (filter-append (is_block_at c k) rows (b ∷ []), counts k b own live)
        (added (b.height == k))
    where
      added :
          (here : Bool)
          → last_row (filter (is_block_at c k) rows ++ (if here && true then b ∷ [] else []))
            ≡ (if here then some b else last_row (filter (is_block_at c k) rows))
      added true = last_row-append (filter (is_block_at c k) rows) b
      added false = ap last_row (append-nil (filter (is_block_at c k) rows))

  module _ (h : ℕ) (rows : List Block) (b : Block) where
    one_more-IsTop :
        b.height ≡ suc h
        → b.chain_id ≡ c
        → text_eq b.status orphaned ≡ false
        → IsTop c h rows
        → IsTop c (suc h) (rows ++ b ∷ [])
    one_more-IsTop e own live top k =
        let other : (b.height == suc (suc h + k)) ≡ false = ground arith in
        block_at-append (suc (suc h + k)) rows b own live
        ∙ rw other (ap (λ n. block_at c (suc n) rows) (omega arith) ∙ top (suc k))

    one_more-IsLinked :
        b.height ≡ suc h
        → b.chain_id ≡ c
        → text_eq b.status orphaned ≡ false
        → IsTop c h rows
        → Links (block_at c h rows) (some b)
        → IsLinked c rows
        → IsLinked c (rows ++ b ∷ [])
    one_more-IsLinked e own live top first linked k =
        subst (λ o. Links o (block_at c (suc k) (rows ++ b ∷ [])))
          (sym (block_at-append k rows b own live))
          (subst (Links (if b.height == k then some b else block_at c k rows))
            (sym (block_at-append (suc k) rows b own live))
            (linked_at k (b.height == k) (b.height == suc k) refl refl))
      where
        linked_at :
            (k : ℕ) (here next : Bool)
            → (b.height == k) ≡ here
            → (b.height == suc k) ≡ next
            → Links
                (if here then some b else block_at c k rows)
                (if next then some b else block_at c (suc k) rows)
        linked_at k true true f g = ground arith
        linked_at k true false f g =
            let above : suc k ≡ suc (h + 1) = ground arith in
            let at : block_at c (suc k) rows ≡ none = ap (λ n. block_at c n rows) above ∙ top 1 in
            subst (Links (some b)) (sym at) tt
        linked_at k false true f g =
            let at : h ≡ k = ground arith in
            subst (λ n. Links (block_at c n rows) (some b)) at first
        linked_at k false false f g = linked k

  -- the height of the last block
  abbrev pub last_of : Block → List Block → Block
  last_of b [] = b
  last_of b (b2 ∷ bs) = last_of b2 bs

  block_at-new :
      (h : ℕ) (rows : List Block) (b : Block)
      → b.height ≡ suc h
      → b.chain_id ≡ c
      → text_eq b.status orphaned ≡ false
      → block_at c (suc h) (rows ++ b ∷ []) ≡ some b
  block_at-new h rows b e own live =
      let here : (b.height == suc h) ≡ true = ground arith in
      block_at-append (suc h) rows b own live ∙ rw here refl

  -- A run of blocks that continues the top of linked blocks leaves them linked, below its last block.
  pub run-IsLinked :
      (h : ℕ) (b : Block) (bs rows : List Block)
      → IsRun c (suc h) b bs
      → IsTop c h rows
      → Links (block_at c h rows) (some b)
      → IsLinked c rows
      → IsLinked c (rows ++ b ∷ bs) × IsTop c (last_of b bs).height (rows ++ b ∷ bs)
  run-IsLinked h b _ rows (single _ _ e own live) top first linked = (
    one_more-IsLinked h rows b e own live top first linked,
    subst (λ n. IsTop c n (rows ++ b ∷ [])) (sym e) (one_more-IsTop h rows b e own live top),
  )
  run-IsLinked h b _ rows (more _ _ next bs e own live child run) top first linked =
      subst (λ all. IsLinked c all × IsTop c (last_of next bs).height all)
        (append_assoc rows (b ∷ []) (next ∷ bs))
        (run-IsLinked (suc h) next bs (rows ++ b ∷ []) run (one_more-IsTop h rows b e own live top)
          (subst (λ o. Links o (some next)) (sym (block_at-new h rows b e own live)) child)
          (one_more-IsLinked h rows b e own live top first linked))
