-- ===== src/Pages.antt =====
-- The addresses of the site: the pages are the folders of web/src/app, and the components build
-- their links by template strings.
pub mod RoundTrip
use btc_eth_indexer.Prelude.{
  ℕ, Bool, true, false, not, ◌&&◌, List, [], ◌∷◌, ◌++◌, Option, none, some, Text, codes, text_eq,
  is_empty, ◌==◌, if◌then◌else◌, ◌≡◌, ◌≢◌, show, split_on, Lacks,
}
use btc_eth_indexer.Types.{Chain, btc, eth, chain_text}

-- A page of web/src/app with the parameters of its folder's name.
pub data Page : Type 0 where
  home system : Page
  -- the parameter `chain`
  stats : Text → Page
  -- the parameters `chain` and `id`, `hash` or `address`
  block tx address : Text → Text → Page

abbrev one_part : Text → Option Page
one_part a =
    if text_eq a (codes "")
    then some home
    else if text_eq a (codes "system")
    then some system
    else none

abbrev two_parts : Text → Text → Option Page
two_parts a c = if text_eq a (codes "stats") && not (is_empty c) then some (stats c) else none

abbrev three_parts : Text → Text → Text → Option Page
three_parts a c p =
    if is_empty c
    then none
    else if is_empty p
    then none
    else if text_eq a (codes "block")
    then some (block c p)
    else if text_eq a (codes "tx")
    then some (tx c p)
    else if text_eq a (codes "address")
    then some (address c p)
    else none

abbrev page_of_parts : List Text → Option Page
page_of_parts ((c ∷ s) ∷ r) = none
page_of_parts ([] ∷ a ∷ []) = one_part a
page_of_parts ([] ∷ a ∷ c ∷ []) = two_parts a c
page_of_parts ([] ∷ a ∷ c ∷ p ∷ []) = three_parts a c p
page_of_parts _ = none

-- the page that the application router renders for a path
unfoldable pub page_of : Text → Option Page
unfolding split_on
page_of path = page_of_parts (split_on b'/' path)

-- the template strings of the components: `/block/${chain}/${id}` and so on
abbrev pub block_path : Text → Text → Text
block_path chain id = codes "/block/" ++ (chain ++ (codes "/" ++ id))

abbrev pub tx_path : Text → Text → Text
tx_path chain hash = codes "/tx/" ++ (chain ++ (codes "/" ++ hash))

abbrev pub address_path : Text → Text → Text
address_path chain addr = codes "/address/" ++ (chain ++ (codes "/" ++ addr))

abbrev pub stats_path : Text → Text
stats_path chain = codes "/stats/" ++ chain

-- A path parameter: not empty and without a slash.
pub record IsSegment (s : Text) : Type 0 where
  pub filled : is_empty s ≡ false
  pub slash_free : Lacks b'/' s

-- A link to a page of the site.
abbrev pub IsLive : Text → Type 0
IsLive path = (p : Page) × (page_of path ≡ some p)

-- `params.chain === "eth" ? "eth" : "btc"`
pub chain_of_param : Text → Chain
chain_of_param s = if text_eq s (codes "eth") then eth else btc
