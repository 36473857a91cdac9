-- ===== src/Format/Shorten.antt =====
-- Shortened hashes.
use btc_eth_indexer.Prelude.{
  ℕ, zero, suc, ◌+◌, ◌-◌, ◌≤◌, ◌<◌, List, [], ◌∷◌, ◌++◌, Text, codes, length, take, drop,
  slice_last, length-append, length-take, length-drop, ◌≡◌, refl, arith, ltb, Bool-cases, inl, inr,
  ◌⊎◌, ap, ◌∙◌, append_assoc,
}
use btc_eth_indexer.Format.{shorten_hash, ellipsis}

length-slice_last : (k : ℕ) (s : Text) → 0 < k → k ≤ length s → length (slice_last k s) ≡ k
length-slice_last zero s h l = elim h [ ]
length-slice_last (suc k) s h l = ground (arith, length-drop (length s - suc k) s)

length-ellipsis :
    (s e : ℕ) (hash : Text) → 0 < e → s + e ≤ length hash → length (ellipsis s e hash) ≡ s + 3 + e
length-ellipsis s e hash h l = omega (
  arith,
  length-append (take s hash) (codes "..." ++ slice_last e hash),
  length-take s hash,
  length-slice_last e hash h,
)

take-append {ℓ} :
    {A : Type ℓ} (n : ℕ) (xs ys : List A) → n ≤ length xs → take n (take n xs ++ ys) ≡ take n xs
take-append zero xs ys h = refl
take-append (suc n) [] ys h = elim h [ ]
take-append (suc n) (x ∷ xs) ys h = ap (λ r. x ∷ r) (take-append n xs ys (omega arith))

drop-append {ℓ} : {A : Type ℓ} (xs ys : List A) (n : ℕ) → n ≡ length xs → drop n (xs ++ ys) ≡ ys
drop-append [] ys zero h = refl
drop-append [] ys (suc n) h = absurd (omega arith)
drop-append (x ∷ xs) ys zero h = absurd (omega arith)
drop-append (x ∷ xs) ys (suc n) h = drop-append xs ys n (omega arith)

slice_last_pos : (k : ℕ) (s : Text) → 0 < k → slice_last k s ≡ drop (length s - k) s
slice_last_pos k s h = ground arith

slice_last-append : (xs ys : Text) (e : ℕ) → 0 < e → length ys ≡ e → slice_last e (xs ++ ys) ≡ ys
slice_last-append xs ys e h l =
    slice_last_pos e (xs ++ ys) h
    ∙ drop-append xs ys (length (xs ++ ys) - e) (omega (arith, length-append xs ys))

-- What a reader can rely on when a hash is cut to its first `s` and last `e` units.
pub record IsEllipsis (hash : Text) (s e : ℕ) (short : Text) : Type 0 where
  pub measured : length short ≡ s + 3 + e
  pub begins : take s short ≡ take s hash
  pub ends : slice_last e short ≡ slice_last e hash

pub ellipsis-IsEllipsis :
    (hash : Text) (s e : ℕ) → 0 < e → s + e ≤ length hash → IsEllipsis hash s e (ellipsis s e hash)
ellipsis-IsEllipsis hash s e h l = record {
  measured = length-ellipsis s e hash h l;
  begins = take-append s hash _ (omega arith);
  ends = rw (← append_assoc (take s hash) (codes "...") (slice_last e hash)) (
      slice_last-append (take s hash ++ codes "...") (slice_last e hash) e h
        (length-slice_last e hash h (omega arith)));
}

-- A hash of at least `s + e + 3` units, with `e` positive, is cut: the result has `s + 3 + e` units,
-- no more than the hash, with the same first `s` and the same last `e` units. A shorter hash is left
-- as it is.
pub shorten_hash_lem :
    (hash : Text) (s e : ℕ)
    → 0 < e
    → ((length hash < s + e + 3) × (shorten_hash hash s e ≡ hash))
      ⊎ ((s + e + 3 ≤ length hash)
          × (length (shorten_hash hash s e) ≤ length hash)
          × IsEllipsis hash s e (shorten_hash hash s e))
unfolding shorten_hash
shorten_hash_lem [] s e h = inl (omega arith, refl)
shorten_hash_lem (c ∷ hash) s e h = elim (Bool-cases (ltb (length (c ∷ hash)) (s + e + 3))) [
  | inl short ↦ inl (ground arith, rw short refl)
  | inr long ↦
      let enough : s + e + 3 ≤ length (c ∷ hash) = ground arith in
      let cut = ellipsis-IsEllipsis (c ∷ hash) s e h (omega arith) in
      inr (enough, rw long (omega (arith, cut.measured)), rw long cut)
]
