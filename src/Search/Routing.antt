-- ===== src/Search/Routing.antt =====
-- Where the search box goes without asking the API.
use btc_eth_indexer.Prelude.{
  ℕ, ◌<◌, Bool, true, false, ◌||◌, [], ◌∷◌, Option, none, some, Text, codes, length, all, is_digit,
  is_empty, is_numeric, Lacks, leb, ◌&&◌, starts_with, digits-is_numeric, show, show-digits,
  if◌then◌else◌, ◌≡◌, refl, arith, ltb, Bool-cases, inl, inr,
}
use btc_eth_indexer.Types.{Chain, btc, eth, chain_text}
use btc_eth_indexer.Pages.{
  block_path, address_path, tx_path, IsSegment, Page, address, block, page_of,
}
use btc_eth_indexer.Pages.RoundTrip.{page_of-block_path, page_of-address_path, chain_text-IsSegment}
use btc_eth_indexer.Search.{
  smart_route, is_eth_address, is_btc_address, is_number, fallback, Verdict, push,
}
use mathlib.Core.Path.{subst}

-- whether a number begins like a Bitcoin address
abbrev pub begins_1_or_3 : Text → Bool
begins_1_or_3 d = starts_with d (codes "1") || starts_with d (codes "3")

digits_not_prefixed : (d : Text) → all is_digit d ≡ true → starts_with d (codes "0x") ≡ false
unfolding is_digit
digits_not_prefixed [] h = refl
digits_not_prefixed (c ∷ []) h = ground arith
digits_not_prefixed (c ∷ x ∷ d) h = ground arith

digits_not_bech : (d : Text) → all is_digit d ≡ true → starts_with d (codes "bc1") ≡ false
unfolding is_digit
digits_not_bech [] h = refl
digits_not_bech (c ∷ d) h = ground arith

smart_route-digits :
    (chain : Chain) (d : Text)
    → all is_digit d ≡ true
    → length d < 20
    → smart_route chain d ≡ (
        if begins_1_or_3 d
        then some (address_path (codes "btc") d)
        else some (block_path (chain_text chain) d))
unfolding smart_route
smart_route-digits chain d h l =
    let short : ltb (length d) 20 ≡ true = ground arith in
    rw (digits_not_prefixed d h, digits_not_bech d h, digits-is_numeric d h, short)
      (elim (Bool-cases (starts_with d (codes "1"))) [
        | inl e ↦ rw e refl
        | inr e ↦ elim (Bool-cases (starts_with d (codes "3"))) [
          | inl f ↦ rw (e, f) refl
          | inr f ↦ rw (e, f) refl
        ]
      ])

-- A height of fewer than 20 digits is looked up as a block of the selected chain, unless it begins
-- with 1 or 3: then it is taken for a Bitcoin address.
pub smart_route-show :
    (chain : Chain) (n : ℕ)
    → length (show n) < 20
    → smart_route chain (show n) ≡ (
        if begins_1_or_3 (show n)
        then some (address_path (codes "btc") (show n))
        else some (block_path (chain_text chain) (show n)))
smart_route-show chain n l = smart_route-digits chain (show n) (show-digits n) l

-- a letter or a digit, which stands for itself in an address of the site
abbrev pub is_word_char : ℕ → Bool
is_word_char c =
    (leb b'0' c && leb c b'9') || (leb b'A' c && leb c b'Z') || (leb b'a' c && leb c b'z')

words_lack_slash : (s : Text) → all is_word_char s ≡ true → Lacks b'/' s
words_lack_slash [] h = ground arith
words_lack_slash (c ∷ s) h = ground (arith, words_lack_slash s)

word-IsSegment : (s : Text) → is_empty s ≡ false → all is_word_char s ≡ true → IsSegment s
word-IsSegment s e h = record { filled = e; slash_free = words_lack_slash s h }

-- The pages that may answer a term: an Ethereum address opens on Ethereum and a Bitcoin address on
-- Bitcoin, whatever chain is selected, and a number opens a block of the selected chain.
pub data Answers (chain : Chain) (term : Text) : Page → Type 0 where
  eth_account :
      starts_with term (codes "0x") ≡ true
      → length term ≡ 42
      → Answers chain term (address (codes "eth") term)
  btc_account :
      (begins_1_or_3 term || starts_with term (codes "bc1")) ≡ true
      → Answers chain term (address (codes "btc") term)
  height :
      is_numeric term ≡ true
      → length term < 20
      → begins_1_or_3 term ≡ false
      → Answers chain term (block (chain_text chain) term)

abbrev Opens : Chain → Text → Text → Type 0
Opens chain term route = (p : Page) × (page_of route ≡ some p) × Answers chain term p

-- one more test in a ladder of routes
Opens-if :
    (chain : Chain) (term : Text) (b : Bool) (r route : Text) (o : Option Text)
    → (b ≡ true → Opens chain term r)
    → (b ≡ false → o ≡ some route → Opens chain term route)
    → (if b then some r else o) ≡ some route
    → Opens chain term route
Opens-if chain term true r route o taken missed e =
    let same : r ≡ route = cc in subst (Opens chain term) same (taken refl)
Opens-if chain term false r route o taken missed e = missed refl e

-- Each route that the box chooses by itself for a term of letters and digits opens a page that may
-- answer the term: an Ethereum address, of 42 units behind 0x, is shown as an address of Ethereum; a
-- term that begins with 1, 3 or bc1 as an address of Bitcoin; and a number of fewer than 20 units
-- with another beginning as a block of the selected chain.
pub smart_route-Answers :
    (chain : Chain) (term route : Text)
    → is_empty term ≡ false
    → all is_word_char term ≡ true
    → smart_route chain term ≡ some route
    → (p : Page) × (page_of route ≡ some p) × Answers chain term p
unfolding smart_route
smart_route-Answers chain term route filled words e =
    let h = word-IsSegment term filled words in
    Opens-if chain term (is_eth_address term) _ route _
      (λ (q : is_eth_address term ≡ true). (
        address (codes "eth") term,
        page_of-address_path _ term (chain_text-IsSegment eth) h,
        eth_account (ground arith) (ground arith),
      ))
      (λ n.
        Opens-if chain term _ _ route _
          (λ (q : is_btc_address term ≡ true). (
            address (codes "btc") term,
            page_of-address_path _ term (chain_text-IsSegment btc) h,
            btc_account (ground arith),
          ))
          (λ m.
            Opens-if chain term _ _ route none
              (λ (q : is_number term ≡ true). (
                block (chain_text chain) term,
                page_of-block_path _ term (chain_text-IsSegment chain) h,
                height (ground arith) (ground arith) (ground arith),
              ))
              (λ n2 f. absurd (cc f))))
      e

-- Both fallbacks open the transaction page exactly for the terms of 64 units or more: the test for
-- a prefixed hash of 66 units adds nothing.
pub fallback_lem :
    (chain : Chain) (term : Text) (otherwise : Verdict)
    → fallback chain term otherwise
      ≡ (if leb 64 (length term) then push (tx_path (chain_text chain) term) else otherwise)
unfolding fallback
fallback_lem chain term otherwise = ground arith
