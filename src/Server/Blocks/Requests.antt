-- ===== src/Server/Blocks/Requests.antt =====
-- Requests for blocks and for the latest block, one after the other, through one cache whose entries
-- run out in between.
use btc_eth_indexer.Prelude.{
  ℕ, Bool, Bool-cases, inl, inr, true, List, [], ◌∷◌, Option, none, some, Text, codes, is_empty,
  show, is_digit, show-digits, all, Try, parse_uint, parse_uint_bound, Lacks, All, filter, ◌≡◌, ◌≢◌,
  refl, subst,
}
use btc_eth_indexer.Types.{Block}
use btc_eth_indexer.Server.Blocks.{
  BlockStore, Cache, Entry, find_by, handle_get_block, handle_get_latest_block, find_block,
  response,
}
use btc_eth_indexer.Server.Blocks.Coherence.{
  IsConsistent, IsCoherent, IsCoherentEntry, IsNotLatest, stored, by_height-IsCoherent,
  by_hash-IsCoherent, get_latest_block-IsCoherent, handle_get_block-IsCoherent,
}

pub record Request : Type 0 where
  pub chain : Text
  -- the identifier of a block, or `none` for the latest one
  pub id : Option Text
  pub include_raw : Bool

abbrev pub handle_id : BlockStore → Text → Bool → Option Text → Cache → Try (Option Block) × Cache
handle_id store chain include_raw none cache = handle_get_latest_block store chain include_raw cache
handle_id store chain include_raw (some id) cache =
    handle_get_block store chain id include_raw cache

-- What happens to the cache: a request is served, or those entries run out that are not kept.
pub data Event : Type 0 where
  served : Request → Event
  run_out : (Entry → Bool) → Event

-- the cache behind a sequence of events, the last one first, from an empty cache on
unfoldable pub cache_after : BlockStore → List Event → Cache
cache_after store [] = []
cache_after store (served r ∷ es) =
    (handle_id store r.chain r.include_raw r.id (cache_after store es)).1
cache_after store (run_out kept ∷ es) = filter kept (cache_after store es)

-- an event whose chain has no colon in its name
abbrev pub IsColonFree : Event → Type 0
IsColonFree (served r) = Lacks b':' r.chain
IsColonFree (run_out kept) = Unit {0}

filter-All :
    {A : Type 0} (P : A → Type 0) (keep : A → Bool) (xs : List A)
    → All P xs
    → All P (filter keep xs)
filter-All P keep [] h = tt
filter-All P keep (x ∷ xs) (hx, h) = elim (Bool-cases (keep x)) [
  | inl e ↦ rw e (hx, filter-All P keep xs h)
  | inr e ↦ rw e (filter-All P keep xs h)
]

pub number-IsNotLatest : (n : ℕ) → IsNotLatest (show n)
unfolding is_digit
number-IsNotLatest n e =
    let digits : all is_digit (codes "latest") ≡ true =
      subst (λ s. all is_digit s ≡ true) e (show-digits n) in
    cc

module _ (store : BlockStore) (t : IsConsistent store) where
  find_by-keeps :
      (chain id : Text) (o : Option ℕ) (cache : Cache)
      → Lacks b':' chain
      → parse_uint id ≡ o
      → IsCoherent store IsNotLatest cache
      → IsCoherent store IsNotLatest (find_by store chain id o cache).1
  find_by-keeps chain id (some height) cache h e c =
      (by_height-IsCoherent store IsNotLatest chain h t height cache (parse_uint_bound id height e)
        c).1
  find_by-keeps chain id none cache h e c =
      (by_hash-IsCoherent store IsNotLatest chain h t id cache e c).1

  handle_id-keeps :
      (chain : Text) (include_raw : Bool) (o : Option Text) (cache : Cache)
      → Lacks b':' chain
      → IsCoherent store IsNotLatest cache
      → IsCoherent store IsNotLatest (handle_id store chain include_raw o cache).1
  unfolding handle_get_block handle_get_latest_block find_block
  handle_id-keeps chain include_raw (some id) cache h c =
      find_by-keeps chain id (parse_uint id) cache h refl c
  handle_id-keeps chain include_raw none cache h c = elim (Bool-cases (is_empty chain)) [
    | inl e ↦ rw e c
    | inr e ↦ rw e (get_latest_block-IsCoherent store chain cache h c)
  ]

  cache_after-IsCoherent :
      (es : List Event) → All IsColonFree es → IsCoherent store IsNotLatest (cache_after store es)
  unfolding cache_after
  cache_after-IsCoherent [] h = tt
  cache_after-IsCoherent (served r ∷ es) (hr, h) =
      handle_id-keeps r.chain r.include_raw r.id (cache_after store es) hr
        (cache_after-IsCoherent es h)
  cache_after-IsCoherent (run_out kept ∷ es) (_, h) =
      filter-All (IsCoherentEntry store IsNotLatest) kept (cache_after store es)
        (cache_after-IsCoherent es h)

  -- Let the block table have one block for each height and each hash of a chain and stay as it is,
  -- no hash be a decimal number, and the names of the chains have no colon. From an empty cache on,
  -- after any requests for blocks and for the latest block, of any chains and also for the
  -- identifier "latest", and after entries that ran out: a request for a block with another
  -- identifier is answered with the store's answer, less the raw data unless that is asked for.
  pub handle_get_block-cache_after :
      (es : List Event) (chain id : Text) (include_raw : Bool)
      → All IsColonFree es
      → Lacks b':' chain
      → id ≢ codes "latest"
      → (handle_get_block store chain id include_raw (cache_after store es)).0
        ≡ response store include_raw (stored store chain id)
  handle_get_block-cache_after es chain id include_raw hs h other =
      (handle_get_block-IsCoherent store IsNotLatest chain h t id include_raw (cache_after store es)
        number-IsNotLatest other (cache_after-IsCoherent es hs)).0
