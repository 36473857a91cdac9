-- ===== src/AnimatedNumber/Grouping.antt =====
-- The separators stand between groups of three digits.
use btc_eth_indexer.Prelude.{
  ℕ, suc, ◌%◌, true, false, List, [], ◌∷◌, ◌++◌, Text, codes, is_digit, split_on, cons_head, length,
  all, All, ◌==◌, ◌≡◌, ◌≢◌, refl, sym, ap, ◌∙◌, arith, Bool-cases, inl, inr, split_on-append,
}
use mathlib.Core.List.{flatten}
use btc_eth_indexer.AnimatedNumber.{is_word, digit_run, groups_ahead, separated, with_separator}

digit_run-digits : (s : Text) → all is_digit s ≡ true → digit_run s ≡ length s
unfolding digit_run
digit_run-digits [] h = refl
digit_run-digits (c ∷ s) h = ground (arith, digit_run-digits s)

-- A text of digits cut into a first group and groups of three behind it.
pub record IsGrouping (s : Text) (first : ℕ) (parts : List Text) : Type 0 where
  pub head : Text
  pub others : List Text
  pub cut : parts ≡ head ∷ others
  pub begins : length head ≡ first
  pub threes : All (λ part. length part ≡ 3) others
  pub whole : head ++ flatten others ≡ s

split_comma : (s : Text) → split_on b',' (b',' ∷ s) ≡ [] ∷ split_on b',' s
split_comma s = split_on-append b',' [] s tt

split_other : (c : ℕ) (s : Text) → c ≢ b',' → split_on b',' (c ∷ s) ≡ cons_head c (split_on b',' s)
unfolding split_on
split_other c s h = ground arith

digit_ne_comma : (c : ℕ) → is_digit c ≡ true → c ≢ b','
unfolding is_digit
digit_ne_comma c h = ground arith

-- one digit more in front of the first group
grow :
    (c : ℕ) (s : Text) (n : ℕ) (parts : List Text)
    → IsGrouping s n parts
    → IsGrouping (c ∷ s) (suc n) (cons_head c parts)
grow c s n parts g = record {
  head = c ∷ g.head;
  others = g.others;
  cut = rw g.cut refl;
  begins = ap suc g.begins;
  threes = g.threes;
  whole = ap (λ r. c ∷ r) g.whole;
}

-- a separator in front of a full group
close : (s : Text) (parts : List Text) → IsGrouping s 3 parts → IsGrouping s 0 ([] ∷ parts)
unfolding flatten
close s parts g = record {
  head = [];
  others = parts;
  cut = refl;
  begins = refl;
  threes = rw g.cut (g.begins, g.threes);
  whole = rw (g.cut, flatten) g.whole;
}

digit_is_word : (c : ℕ) → is_digit c ≡ true → is_word c ≡ true
digit_is_word c h = rw h refl

groups_ahead-digits :
    (c : ℕ) (s : Text)
    → all is_digit (c ∷ s) ≡ true
    → groups_ahead (c ∷ s) ≡ (suc (length s) % 3 == 0)
groups_ahead-digits c s h = rw (digit_run-digits (c ∷ s) h) (ground arith)

regroup :
    (s : Text) (n m : ℕ) (parts parts' : List Text)
    → n ≡ m
    → parts ≡ parts'
    → IsGrouping s n parts
    → IsGrouping s m parts'
regroup s n m parts parts' e f g = record {
  head = g.head;
  others = g.others;
  cut = sym f ∙ g.cut;
  begins = g.begins ∙ e;
  threes = g.threes;
  whole = g.whole;
}

module _ (c : ℕ) (s : Text) (h : all is_digit (c ∷ s) ≡ true) where
  digit : is_digit c ≡ true
  digit = ground arith

  separated_full :
      (suc (length s) % 3 == 0) ≡ true
      → separated (codes ",") true (c ∷ s) ≡ b',' ∷ c ∷ separated (codes ",") true s
  unfolding separated
  separated_full full = rw (digit_is_word c digit, groups_ahead-digits c s h, full) refl

  separated_more :
      (suc (length s) % 3 == 0) ≡ false
      → separated (codes ",") true (c ∷ s) ≡ c ∷ separated (codes ",") true s
  unfolding separated
  separated_more more = rw (digit_is_word c digit, groups_ahead-digits c s h, more) refl

  parts_other :
      split_on b',' (c ∷ separated (codes ",") true s)
      ≡ cons_head c (split_on b',' (separated (codes ",") true s))
  parts_other = split_other c _ (digit_ne_comma c digit)

  step-IsGrouping :
      IsGrouping s (length s % 3) (split_on b',' (separated (codes ",") true s))
      → IsGrouping (c ∷ s) (suc (length s) % 3) (split_on b',' (separated (codes ",") true (c ∷ s)))
  step-IsGrouping ih =
      let grown = grow c s (length s % 3) _ ih in
      elim (Bool-cases (suc (length s) % 3 == 0)) [
        | inl full ↦
            regroup (c ∷ s) 0 _ _ _ (ground arith)
              (ap (λ r. [] ∷ r) (sym parts_other)
                ∙ sym (split_comma _)
                ∙ ap (split_on b',') (sym (separated_full full)))
              (close (c ∷ s) _
                (regroup (c ∷ s) (suc (length s % 3)) 3 _ _ (ground arith) refl grown))
        | inr more ↦
            regroup (c ∷ s) (suc (length s % 3)) _ _ _ (ground arith)
              (sym parts_other ∙ ap (split_on b',') (sym (separated_more more))) grown
      ]

-- the digits behind a digit
separated-IsGrouping :
    (s : Text)
    → all is_digit s ≡ true
    → IsGrouping s (length s % 3) (split_on b',' (separated (codes ",") true s))
unfolding separated split_on flatten
separated-IsGrouping [] h = record {
  head = [];
  others = [];
  cut = refl;
  begins = refl;
  threes = tt;
  whole = refl;
}
separated-IsGrouping (c ∷ s) h = step-IsGrouping c s h (separated-IsGrouping s (ground arith))

-- The parts between the separators that are put into the digits of a number: a first group of one
-- to three digits, then groups of exactly three, and together the digits themselves.
pub with_separator-IsGrouping :
    (c : ℕ) (s : Text)
    → all is_digit (c ∷ s) ≡ true
    → IsGrouping (c ∷ s) (suc (length s % 3)) (split_on b',' (with_separator (codes ",") (c ∷ s)))
unfolding with_separator
with_separator-IsGrouping c s h =
    let e : with_separator (codes ",") (c ∷ s) ≡ c ∷ separated (codes ",") true s =
      rw (digit_is_word c (digit c s h)) refl in
    regroup (c ∷ s) _ _ _ _ refl (sym (parts_other c s h) ∙ ap (split_on b',') (sym e))
      (grow c s (length s % 3) _ (separated-IsGrouping s (ground arith)))
