-- ===== src/Pages/RoundTrip.antt =====
-- Every template string leads to the page it names, with the parameters that were put in.
use btc_eth_indexer.Prelude.{
  ℕ, true, [], ◌∷◌, ◌++◌, some, Text, codes, ◌≡◌, refl, ap, ◌∙◌, show, split_on, split_on_part,
  split_on-append, Lacks, all, is_digit, show-digits, show-nonempty, split_on, split_on_part,
  split_on-append, Lacks, arith,
}
use btc_eth_indexer.Types.{Chain, btc, eth, chain_text}
use btc_eth_indexer.Pages.{
  home, system, stats, block, tx, address, page_of, page_of_parts, IsSegment, IsLive, block_path,
  tx_path, address_path, stats_path, chain_of_param,
}

-- the parts of a path with one and with two parameters
split_one :
    (a c : Text)
    → Lacks b'/' a
    → IsSegment c
    → split_on b'/' (b'/' ∷ (a ++ (b'/' ∷ c))) ≡ [] ∷ a ∷ c ∷ []
split_one a c h k =
    split_on-append b'/' [] (a ++ (b'/' ∷ c)) tt
    ∙ ap (λ r. [] ∷ r)
        (split_on-append b'/' a c h ∙ ap (λ r. a ∷ r) (split_on_part b'/' c k.slash_free))

split_two :
    (a c s : Text)
    → Lacks b'/' a
    → IsSegment c
    → IsSegment s
    → split_on b'/' (b'/' ∷ (a ++ (b'/' ∷ (c ++ (b'/' ∷ s))))) ≡ [] ∷ a ∷ c ∷ s ∷ []
split_two a c s h k l =
    split_on-append b'/' [] (a ++ (b'/' ∷ (c ++ (b'/' ∷ s)))) tt
    ∙ ap (λ r. [] ∷ r)
        (split_on-append b'/' a (c ++ (b'/' ∷ s)) h
          ∙ ap (λ r. a ∷ r)
              (split_on-append b'/' c s k.slash_free
                ∙ ap (λ r. c ∷ r) (split_on_part b'/' s l.slash_free)))

module _ (c s : Text) (hc : IsSegment c) (hs : IsSegment s) where
  pub page_of-block_path : page_of (block_path c s) ≡ some (block c s)
  unfolding page_of
  page_of-block_path =
      ap page_of_parts (split_two (codes "block") c s (omega arith) hc hs)
      ∙ rw (hc.filled, hs.filled)

  pub page_of-tx_path : page_of (tx_path c s) ≡ some (tx c s)
  unfolding page_of
  page_of-tx_path =
      ap page_of_parts (split_two (codes "tx") c s (omega arith) hc hs) ∙ rw (hc.filled, hs.filled)

  pub page_of-address_path : page_of (address_path c s) ≡ some (address c s)
  unfolding page_of
  page_of-address_path =
      ap page_of_parts (split_two (codes "address") c s (omega arith) hc hs)
      ∙ rw (hc.filled, hs.filled)

pub page_of-stats_path : (c : Text) → IsSegment c → page_of (stats_path c) ≡ some (stats c)
unfolding page_of
page_of-stats_path c hc =
    ap page_of_parts (split_one (codes "stats") c (omega arith) hc) ∙ rw (hc.filled)

pub chain_text-IsSegment : (c : Chain) → IsSegment (chain_text c)
chain_text-IsSegment btc = record { filled = refl; slash_free = omega arith }
chain_text-IsSegment eth = record { filled = refl; slash_free = omega arith }

digits-slash_free : (s : Text) → all is_digit s ≡ true → Lacks b'/' s
unfolding is_digit
digits-slash_free [] h = tt
digits-slash_free (c ∷ s) h = ground (arith, digits-slash_free s)

pub show-IsSegment : (n : ℕ) → IsSegment (show n)
show-IsSegment n = record {
  filled = show-nonempty n;
  slash_free = digits-slash_free (show n) (show-digits n);
}

-- The page that a link opens reads back the chain it was built for.
pub chain_of_param-chain_text : (c : Chain) → chain_of_param (chain_text c) ≡ c
unfolding chain_of_param
chain_of_param-chain_text btc = refl
chain_of_param-chain_text eth = refl

module _ (c : Chain) (s : Text) (hs : IsSegment s) where
  pub block_path-IsLive : IsLive (block_path (chain_text c) s)
  block_path-IsLive = (block (chain_text c) s, page_of-block_path _ s (chain_text-IsSegment c) hs)

  pub tx_path-IsLive : IsLive (tx_path (chain_text c) s)
  tx_path-IsLive = (tx (chain_text c) s, page_of-tx_path _ s (chain_text-IsSegment c) hs)

  pub address_path-IsLive : IsLive (address_path (chain_text c) s)
  address_path-IsLive =
      (address (chain_text c) s, page_of-address_path _ s (chain_text-IsSegment c) hs)

pub height_path-IsLive : (c : Chain) (n : ℕ) → IsLive (block_path (chain_text c) (show n))
height_path-IsLive c n = block_path-IsLive c (show n) (show-IsSegment n)

pub stats_path-IsLive : (c : Chain) → IsLive (stats_path (chain_text c))
stats_path-IsLive c = (stats (chain_text c), page_of-stats_path _ (chain_text-IsSegment c))

pub home-IsLive : IsLive (codes "/")
unfolding page_of
home-IsLive = (home, refl)

pub system-IsLive : IsLive (codes "/system")
unfolding page_of
system-IsLive = (system, refl)

-- Each template string of a block, a transaction or an address, filled with two parameters that can
-- stand in a path, leads to the page of its folder with those parameters.
pub paths_round_trip :
    (c s : Text)
    → IsSegment c
    → IsSegment s
    → (page_of (block_path c s) ≡ some (block c s))
      × (page_of (tx_path c s) ≡ some (tx c s))
      × (page_of (address_path c s) ≡ some (address c s))
paths_round_trip c s hc hs =
    (page_of-block_path c s hc hs, page_of-tx_path c s hc hs, page_of-address_path c s hc hs)
