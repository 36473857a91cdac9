-- ===== src/Server/Blocks.antt =====
-- Blocks of the API: `handleGetBlock` and `handleGetLatestBlock` of internal/api/server/server.go,
-- `GetBlockByHeight`, `GetBlockByHash` and `GetLatestBlock` of internal/api/service/service.go, and
-- the keys of internal/api/cache/redis.go.
-- The block table is a parameter, and so is what the cache does between two requests.
pub mod Keys
pub mod Coherence
pub mod Requests
use btc_eth_indexer.Prelude.{
  ℕ, Bool, true, false, List, [], ◌∷◌, ◌++◌, Option, none, some, Text, codes, text_eq, is_empty,
  show, if◌then◌else◌, Try, ok, throw, parse_uint,
}
use btc_eth_indexer.Types.{Block}

-- `BlockKey` and `BlockHeightKey`
abbrev pub block_key : Text → Text → Text
block_key chain hash = codes "block:" ++ (chain ++ (codes ":" ++ hash))

abbrev pub block_height_key : Text → ℕ → Text
block_height_key chain height = codes "block:" ++ (chain ++ (codes ":" ++ show height))

-- `LatestBlockKey`, which is the `BlockKey` of the identifier "latest"
abbrev pub latest_block_key : Text → Text
latest_block_key chain = codes "block:" ++ (chain ++ codes ":latest")

pub record Entry : Type 0 where
  pub key : Text
  pub block : Block
  -- in seconds
  pub ttl : ℕ

-- the entries of the cache that have not run out, the latest first
abbrev pub Cache : Type 0
Cache = List Entry

-- `s.cache.Get`
unfoldable pub cache_get : Text → Cache → Option Block
cache_get key [] = none
cache_get key (e ∷ es) =
    let rest = cache_get key es in if text_eq e.key key then some e.block else rest

-- the lookups of the store; a row that does not exist is `none`
pub record BlockStore : Type 0 where
  pub by_height : Text → ℕ → Try (Option Block)
  pub by_hash : Text → Text → Try (Option Block)
  pub latest : Text → Try (Option Block)

-- `ttl`
abbrev pub block_ttl : Block → ℕ
block_ttl b = if text_eq b.status (codes "finalized") then 3600 else 10

-- both keys of a block that has been read, the key of the request first
abbrev pub remember : Text → Text → Block → Cache → Cache
remember key other b cache =
    record { key = other; block = b; ttl = block_ttl b }
    ∷ record { key = key; block = b; ttl = block_ttl b }
    ∷ cache

-- the answer of the store, remembered under both keys
abbrev pub answer_and_cache :
    Text → (Block → Text) → Try (Option Block) → Cache → Try (Option Block) × Cache
answer_and_cache key other throw cache = (throw, cache)
answer_and_cache key other (ok none) cache = (ok none, cache)
answer_and_cache key other (ok (some b)) cache = (ok (some b), remember key (other b) b cache)

abbrev pub through_cache :
    Text → (Block → Text) → Try (Option Block) → Option Block → Cache → Try (Option Block) × Cache
through_cache key other stored (some b) cache = (ok (some b), cache)
through_cache key other stored none cache = answer_and_cache key other stored cache

-- the answer of the store to a request for the latest block, kept for five seconds
abbrev pub answer_latest : Text → Try (Option Block) → Cache → Try (Option Block) × Cache
answer_latest key throw cache = (throw, cache)
answer_latest key (ok none) cache = (ok none, cache)
answer_latest key (ok (some b)) cache =
    (ok (some b), record { key = key; block = b; ttl = 5 } ∷ cache)

abbrev pub latest_through :
    Text → Try (Option Block) → Option Block → Cache → Try (Option Block) × Cache
latest_through key stored (some b) cache = (ok (some b), cache)
latest_through key stored none cache = answer_latest key stored cache

module _ (store : BlockStore) where
  -- `Service.GetLatestBlock`
  unfoldable pub get_latest_block : Text → Cache → Try (Option Block) × Cache
  unfolding cache_get
  get_latest_block chain cache =
      let key = latest_block_key chain in
      latest_through key (store.latest chain) (cache_get key cache) cache

  -- `Service.GetBlockByHeight`
  unfoldable pub get_block_by_height : Text → ℕ → Cache → Try (Option Block) × Cache
  unfolding cache_get
  get_block_by_height chain height cache =
      let key = block_height_key chain height in
      through_cache key (λ b. block_key chain b.hash) (store.by_height chain height)
        (cache_get key cache) cache

  -- `Service.GetBlockByHash`
  unfoldable pub get_block_by_hash : Text → Text → Cache → Try (Option Block) × Cache
  unfolding cache_get
  get_block_by_hash chain hash cache =
      let key = block_key chain hash in
      through_cache key (λ b. block_height_key chain b.height) (store.by_hash chain hash)
        (cache_get key cache) cache

  abbrev pub find_by : Text → Text → Option ℕ → Cache → Try (Option Block) × Cache
  find_by chain id (some height) cache = get_block_by_height chain height cache
  find_by chain id none cache = get_block_by_hash chain id cache

  -- the lookup that the handler chooses for an identifier
  unfoldable pub find_block : Text → Text → Cache → Try (Option Block) × Cache
  unfolding get_block_by_height get_block_by_hash parse_uint
  find_block chain id cache = find_by chain id (parse_uint id) cache

  abbrev pub response : Bool → Try (Option Block) → Try (Option Block)
  response include_raw (ok (some b)) =
      ok (some (if include_raw then b else record b { raw_data = none }))
  response include_raw r = r

  -- `handleGetBlock`: 500 is `throw`, 404 is `none`
  unfoldable pub handle_get_block : Text → Text → Bool → Cache → Try (Option Block) × Cache
  unfolding find_block
  handle_get_block chain id include_raw cache =
      let found = find_block chain id cache in (response include_raw found.0, found.1)

  -- `handleGetLatestBlock` with the parameter `chain` of the query: 400 and 500 are `throw`, 404 is
  -- `none`
  unfoldable pub handle_get_latest_block : Text → Bool → Cache → Try (Option Block) × Cache
  unfolding get_latest_block
  handle_get_latest_block chain include_raw cache =
      if is_empty chain
      then (throw, cache)
      else let found = get_latest_block chain cache in (response include_raw found.0, found.1)
