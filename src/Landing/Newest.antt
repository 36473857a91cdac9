-- ===== src/Landing/Newest.antt =====
-- The table of recent blocks holds the newest of the blocks that are loaded.
use btc_eth_indexer.Prelude.{
  ℕ, zero, suc, ◌≤◌, List, [], ◌∷◌, ◌++◌, take, drop, leb, length, All, ◌≡◌, refl, sym, subst,
  arith, take-append-drop, if_intro, All-behind, All-both, All-take, length-take, ap, ◌∙◌,
}
use Prim.Native.Nat.{min}
use mathlib.Core.List.{Permᴰ}
use mathlib.Core.List.Permᴰ
use btc_eth_indexer.Types.{btc, eth, Block}
use btc_eth_indexer.Runtime.{Runtime}
use btc_eth_indexer.Landing.RecentBlocks.{ChainBlock, insert, sort, tagged, all_blocks, block_time}

module _ (time : ChainBlock → ℕ) where
  -- No entry is newer than one before it.
  abbrev pub IsDescending : List ChainBlock → Type 0
  IsDescending [] = Unit
  IsDescending (x ∷ xs) = All (λ y. time y ≤ time x) xs × IsDescending xs

  All-insert :
      (P : ChainBlock → Type 0) (x : ChainBlock) (ys : List ChainBlock)
      → P x
      → All P ys
      → All P (insert time x ys)
  unfolding insert
  All-insert P x [] p h = (p, tt)
  All-insert P x (y ∷ ys) p (q, h) = ground (arith, All-insert P x ys p h)

  All-le :
      (m n : ℕ) (ys : List ChainBlock) → m ≤ n → All (λ y. time y ≤ m) ys → All (λ y. time y ≤ n) ys
  All-le m n [] k h = tt
  All-le m n (y ∷ ys) k (q, h) = (omega arith, All-le m n ys k h)

  insert-IsDescending :
      (x : ChainBlock) (ys : List ChainBlock) → IsDescending ys → IsDescending (insert time x ys)
  unfolding insert
  insert-IsDescending x [] h = (tt, tt)
  insert-IsDescending x (y ∷ ys) (q, h) =
      if_intro IsDescending (leb (time y) (time x)) _ _
        (λ e. ((ground arith, All-le (time y) (time x) ys (ground arith) q), (q, h)))
        (λ e. (All-insert (λ z. time z ≤ time y) x ys (ground arith) q, insert-IsDescending x ys h))

  sort-IsDescending : (xs : List ChainBlock) → IsDescending (sort time xs)
  unfolding sort
  sort-IsDescending [] = tt
  sort-IsDescending (x ∷ xs) = insert-IsDescending x (sort time xs) (sort-IsDescending xs)

  insert-Perm : (x : ChainBlock) (ys : List ChainBlock) → Permᴰ (insert time x ys) (x ∷ ys)
  unfolding insert
  insert-Perm x [] = Permᴰ.refl (x ∷ [])
  insert-Perm x (y ∷ ys) =
      if_intro (λ r. Permᴰ r (x ∷ y ∷ ys)) (leb (time y) (time x)) _ _ (λ e. Permᴰ.refl _)
        (λ e. Permᴰ.trans (Permᴰ.cons refl (insert-Perm x ys)) (Permᴰ.swap refl refl))

  sort-Perm : (xs : List ChainBlock) → Permᴰ (sort time xs) xs
  unfolding sort
  sort-Perm [] = Permᴰ.nil
  sort-Perm (x ∷ xs) = Permᴰ.trans (insert-Perm x (sort time xs)) (Permᴰ.cons refl (sort-Perm xs))

  length-insert :
      (x : ChainBlock) (ys : List ChainBlock) → length (insert time x ys) ≡ suc (length ys)
  unfolding insert
  length-insert x [] = refl
  length-insert x (y ∷ ys) = ground (arith, length-insert x ys)

  length-sort : (xs : List ChainBlock) → length (sort time xs) ≡ length xs
  unfolding sort
  length-sort [] = refl
  length-sort (x ∷ xs) = length-insert x (sort time xs) ∙ ap suc (length-sort xs)

  All-unit : (ys : List ChainBlock) → All {0, 0} (λ y. Unit) ys
  All-unit [] = tt
  All-unit (y ∷ ys) = (tt, All-unit ys)

  -- what stands behind is not newer
  later :
      (xs ys : List ChainBlock)
      → IsDescending (xs ++ ys)
      → All (λ y. All (λ x. time y ≤ time x) xs) ys
  later [] ys h = All-unit ys
  later (x ∷ xs) ys (q, h) =
      All-both (λ y. time y ≤ time x) (λ y. All (λ z. time y ≤ time z) xs) ys
        (All-behind (λ y. time y ≤ time x) xs ys q) (later xs ys h)

  take-IsDescending : (n : ℕ) (xs : List ChainBlock) → IsDescending xs → IsDescending (take n xs)
  take-IsDescending zero xs h = tt
  take-IsDescending (suc n) [] h = tt
  take-IsDescending (suc n) (x ∷ xs) (q, h) =
      (All-take (λ y. time y ≤ time x) n xs q, take-IsDescending n xs h)

  -- A choice of entries: the newest first, and none of the others newer than any of them.
  pub record IsNewest (n : ℕ) (chosen xs : List ChainBlock) : Type 0 where
    pub descending : IsDescending chosen
    pub count : length chosen ≡ min n (length xs)
    pub others : List ChainBlock
    pub parts : Permᴰ (chosen ++ others) xs
    pub not_newer : All (λ y. All (λ x. time y ≤ time x) chosen) others

  take-sort-IsNewest : (n : ℕ) (xs : List ChainBlock) → IsNewest n (take n (sort time xs)) xs
  take-sort-IsNewest n xs = record {
    descending = take-IsDescending n (sort time xs) (sort-IsDescending xs);
    count = length-take n (sort time xs) ∙ ap (min n) (length-sort xs);
    others = drop n (sort time xs);
    parts = subst (λ r. Permᴰ r xs) (sym (take-append-drop n (sort time xs))) (sort-Perm xs);
    not_newer =
        later (take n (sort time xs)) (drop n (sort time xs))
          (subst IsDescending (sym (take-append-drop n (sort time xs))) (sort-IsDescending xs));
  }

-- The table shows the eight newest of the blocks of both chains that are loaded, all of them if
-- there are fewer, in descending order of their times, and no block that is left out is newer than
-- one that is shown.
pub all_blocks-IsNewest :
    (js : Runtime) (btc_blocks eth_blocks : List Block)
    → IsNewest
        (block_time js)
        8
        (all_blocks js btc_blocks eth_blocks)
        (tagged js btc btc_blocks ++ tagged js eth eth_blocks)
unfolding all_blocks
all_blocks-IsNewest js btc_blocks eth_blocks =
    take-sort-IsNewest (block_time js) 8 (tagged js btc btc_blocks ++ tagged js eth eth_blocks)
