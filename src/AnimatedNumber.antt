-- ===== src/AnimatedNumber.antt =====
-- web/src/components/ui/animated-number.tsx: how a number is shown. The frames of the animation,
-- which are timed in doubles, are not modelled: the view is that of the value that is displayed.
pub mod Grouping
use btc_eth_indexer.Prelude.{
  ℕ, zero, suc, ◌%◌, Bool, true, false, not, ◌&&◌, ◌||◌, List, [], ◌∷◌, ◌++◌, Text, codes, is_digit,
  is_empty, split_on, ltb, leb, ◌==◌, if◌then◌else◌,
}
use btc_eth_indexer.Runtime.{Runtime}
use btc_eth_indexer.Html.{Html, text, elem, ◌⊕◌}

-- `\w`
abbrev pub is_word : ℕ → Bool
is_word c = is_digit c || (leb b'A' c && leb c b'Z') || (leb b'a' c && leb c b'z') || c == b'_'

-- the length of the run of digits that a text begins with
pub digit_run : Text → ℕ
digit_run [] = 0
digit_run (c ∷ s) = let rest = digit_run s in if is_digit c then suc rest else 0

-- `(?=(\d{3})+(?!\d))`: a run of digits ahead, in groups of three
abbrev pub groups_ahead : Text → Bool
groups_ahead s = not (digit_run s == 0) && digit_run s % 3 == 0

-- `\B` between a unit and the next; at the start the unit before counts as no word
abbrev pub same_kind : Bool → Bool → Bool
same_kind true b = b
same_kind false b = not b

-- the replacement at every position that matches, behind a unit that is or is not a word
pub separated : Text → Bool → Text → Text
separated separator word [] = []
separated separator word (c ∷ s) =
    let rest = c ∷ separated separator (is_word c) s in
    if same_kind word (is_word c) && groups_ahead (c ∷ s) then separator ++ rest else rest

-- `integer.replace(/\B(?=(\d{3})+(?!\d))/g, separator)`
unfoldable pub with_separator : Text → Text → Text
unfolding separated digit_run is_digit
with_separator separator integer = separated separator false integer

-- `const [integer, decimal] = fixed.split(".")` and what is made of the two
abbrev pub join_decimal : Text → List Text → Text
join_decimal separator [] = []
join_decimal separator (integer ∷ []) = with_separator separator integer
join_decimal separator (integer ∷ decimal ∷ _) =
    if is_empty decimal
    then with_separator separator integer
    else with_separator separator integer ++ (codes "." ++ decimal)

-- `formatNumber` of what `toFixed` gives
unfoldable pub format_fixed : Text → Text → Text
unfolding with_separator split_on
format_fixed separator fixed = join_decimal separator (split_on b'.' fixed)

-- `formatNumber`
unfoldable pub format_number : (js : Runtime) → Text → ℕ → js.Num → Text
unfolding format_fixed
format_number js separator decimals num = format_fixed separator (js.to_fixed decimals num)

-- `AnimatedNumber`, showing a value
unfoldable pub animated_number : (js : Runtime) → Text → Text → ℕ → Text → js.Num → Html
animated_number js prefix suffix decimals separator display_value =
    elem "span"
      (text prefix ⊕ text (format_number js separator decimals display_value) ⊕ text suffix)
