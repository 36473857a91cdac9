-- ===== src/Server/Blocks/Coherence.antt =====
-- The cache answers as the store does.
use btc_eth_indexer.Prelude.{
  ℕ, ◌^◌, ◌<◌, Bool, [], ◌∷◌, Option, none, some, Text, text_eq_iff, show, Try, ok, throw,
  parse_uint, parse_uint-show, parse_uint_bound, Lacks, All, codes, subst, ◌≡◌, ◌≢◌, refl, sym, ap,
  ◌∙◌, arith,
}
use btc_eth_indexer.Types.{Block}
use btc_eth_indexer.Server.Blocks.{
  BlockStore, Cache, Entry, cache_get, block_key, block_ttl, through_cache, get_block_by_height,
  get_block_by_hash, find_block, find_by, handle_get_block, response, get_latest_block,
  latest_through, latest_block_key,
}
use btc_eth_indexer.Server.Blocks.Keys.{block_key_inj}

abbrev pub stored_by : BlockStore → Text → Text → Option ℕ → Try (Option Block)
stored_by store chain id (some height) = store.by_height chain height
stored_by store chain id none = store.by_hash chain id

-- the answer of the store for the identifier of a request, without a cache
abbrev pub stored : BlockStore → Text → Text → Try (Option Block)
stored store chain id = stored_by store chain id (parse_uint id)

-- A block table with one block for each height and each hash of a chain, no hash of which is a
-- decimal number.
pub record IsConsistent (store : BlockStore) : Type 0 where
  pub hash_known :
      (chain : Text) (height : ℕ) (b : Block)
      → store.by_height chain height ≡ ok (some b)
      → store.by_hash chain b.hash ≡ ok (some b)
  pub hash_no_number :
      (chain : Text) (height : ℕ) (b : Block)
      → store.by_height chain height ≡ ok (some b)
      → parse_uint b.hash ≡ none
  pub height_known :
      (chain hash : Text) (b : Block)
      → store.by_hash chain hash ≡ ok (some b)
      → store.by_height chain b.height ≡ ok (some b)
  pub height_fits :
      (chain hash : Text) (b : Block) → store.by_hash chain hash ≡ ok (some b) → b.height < 2 ^ 64

-- An entry whose block is the store's answer for the chain and the identifier of its key, if the
-- identifier is one of those looked at.
pub record IsCoherentEntry {κ} (store : BlockStore) (P : Text → Type κ) (e : Entry) : Type κ where
  pub chain : Text
  pub id : Text
  pub colon_free : Lacks b':' chain
  pub keyed : e.key ≡ block_key chain id
  pub true_answer : P id → stored store chain id ≡ ok (some e.block)

abbrev pub IsCoherent {κ} : BlockStore → (Text → Type κ) → Cache → Type κ
IsCoherent store P = All (IsCoherentEntry store P)

module _ {κ} (store : BlockStore) (P : Text → Type κ) (chain : Text) (h : Lacks b':' chain) where
  entry_answer :
      (e : Entry) (id : Text)
      → P id
      → IsCoherentEntry store P e
      → e.key ≡ block_key chain id
      → stored store chain id ≡ ok (some e.block)
  entry_answer e id p c k =
      let (a, b) = block_key_inj chain c.chain id c.id h c.colon_free (sym k ∙ c.keyed) in
      let known : stored store c.chain c.id ≡ ok (some e.block) = c.true_answer (subst P b p) in
      rw (a, b) known

  cache_get-stored :
      (id : Text) (cache : Cache) (b : Block)
      → P id
      → IsCoherent store P cache
      → cache_get (block_key chain id) cache ≡ some b
      → stored store chain id ≡ ok (some b)
  unfolding cache_get
  cache_get-stored id [] b p c e = ground arith
  cache_get-stored id (x ∷ cache) b p (cx, c) e = ground (
    arith,
    entry_answer x id p cx,
    text_eq_iff x.key (block_key chain id),
    cache_get-stored id cache b p c,
  )

  make_entry :
      (id : Text) (b : Block)
      → stored store chain id ≡ ok (some b)
      → IsCoherentEntry store P (record { key = block_key chain id; block = b; ttl = block_ttl b })
  make_entry id b e = record {
    chain = chain;
    id = id;
    colon_free = h;
    keyed = refl;
    true_answer = λ p. e;
  }

  -- Through the cache the answer is the store's for an identifier that is looked at, and for any
  -- identifier the cache stays coherent.
  through_cache-IsCoherent :
      (id : Text) (other : Block → Text) (cached : Option Block) (answer : Try (Option Block))
      (cache : Cache)
      → stored store chain id ≡ answer
      → ((b : Block) → answer ≡ ok (some b) → stored store chain (other b) ≡ ok (some b))
      → (P id → (b : Block) → cached ≡ some b → stored store chain id ≡ ok (some b))
      → IsCoherent store P cache
      → let r =
          through_cache (block_key chain id) (λ b. block_key chain (other b)) answer cached cache in
        (P id → r.0 ≡ answer) × IsCoherent store P r.1
  through_cache-IsCoherent id other (some b) answer cache e o k c = (λ p. sym (k p b refl) ∙ e, c)
  through_cache-IsCoherent id other none throw cache e o k c = (λ p. refl, c)
  through_cache-IsCoherent id other none (ok none) cache e o k c = (λ p. refl, c)
  through_cache-IsCoherent id other none (ok (some b)) cache e o k c =
      (λ p. refl, (make_entry (other b) b (o b refl), (make_entry id b e, c)))

  stored-show : (n : ℕ) → n < 2 ^ 64 → stored store chain (show n) ≡ store.by_height chain n
  stored-show n k = rw (parse_uint-show n k) refl

  stored-hash : (s : Text) → parse_uint s ≡ none → stored store chain s ≡ store.by_hash chain s
  stored-hash s e = rw e refl

  module _ (t : IsConsistent store) where
    pub by_height-IsCoherent :
        (height : ℕ) (cache : Cache)
        → height < 2 ^ 64
        → IsCoherent store P cache
        → (P (show height)
            → (get_block_by_height store chain height cache).0 ≡ store.by_height chain height)
          × IsCoherent store P (get_block_by_height store chain height cache).1
    unfolding get_block_by_height
    by_height-IsCoherent height cache k c =
        through_cache-IsCoherent (show height) (λ b. b.hash) _ _ cache (stored-show height k)
          (λ b e.
            stored-hash b.hash (t.hash_no_number chain height b e) ∙ t.hash_known chain height b e)
          (λ p b e. cache_get-stored (show height) cache b p c e) c

    pub by_hash-IsCoherent :
        (hash : Text) (cache : Cache)
        → parse_uint hash ≡ none
        → IsCoherent store P cache
        → (P hash → (get_block_by_hash store chain hash cache).0 ≡ store.by_hash chain hash)
          × IsCoherent store P (get_block_by_hash store chain hash cache).1
    unfolding get_block_by_hash
    by_hash-IsCoherent hash cache k c =
        through_cache-IsCoherent hash (λ b. show b.height) _ _ cache (stored-hash hash k)
          (λ b e.
            stored-show b.height (t.height_fits chain hash b e) ∙ t.height_known chain hash b e)
          (λ p b e. cache_get-stored hash cache b p c e) c

    find_by-IsCoherent :
        (id : Text) (o : Option ℕ) (cache : Cache)
        → parse_uint id ≡ o
        → ((n : ℕ) → P (show n))
        → P id
        → IsCoherent store P cache
        → ((find_by store chain id o cache).0 ≡ stored_by store chain id o)
          × IsCoherent store P (find_by store chain id o cache).1
    find_by-IsCoherent id (some height) cache e numbers p c =
        let (a, b) = by_height-IsCoherent height cache (parse_uint_bound id height e) c in
        (a (numbers height), b)
    find_by-IsCoherent id none cache e numbers p c =
        let (a, b) = by_hash-IsCoherent id cache e c in (a p, b)

    -- Let the block table have one block for each height and each hash of a chain, no hash be a
    -- decimal number, and the name of the chain have no colon. For any set of identifiers that has
    -- all decimal numbers, such as all of them, or all but "latest", and a cache that is coherent on
    -- the set: for an identifier of the set the handler answers with the store's answer, less the
    -- raw data unless that was asked for, and the cache is coherent on the set afterwards.
    pub handle_get_block-IsCoherent :
        (id : Text) (include_raw : Bool) (cache : Cache)
        → ((n : ℕ) → P (show n))
        → P id
        → IsCoherent store P cache
        → ((handle_get_block store chain id include_raw cache).0
            ≡ response store include_raw (stored store chain id))
          × IsCoherent store P (handle_get_block store chain id include_raw cache).1
    unfolding handle_get_block find_block
    handle_get_block-IsCoherent id include_raw cache numbers p c =
        let (a, b) = find_by-IsCoherent id (parse_uint id) cache refl numbers p c in
        (ap (response store include_raw) a, b)

-- every identifier but the one that the latest block is kept under
abbrev pub IsNotLatest : Text → Type 0
IsNotLatest id = id ≢ codes "latest"

-- A request for the latest block keeps the cache coherent on the other identifiers.
pub get_latest_block-IsCoherent :
    (store : BlockStore) (chain : Text) (cache : Cache)
    → Lacks b':' chain
    → IsCoherent store IsNotLatest cache
    → IsCoherent store IsNotLatest (get_latest_block store chain cache).1
unfolding get_latest_block
get_latest_block-IsCoherent store chain cache h c =
    keep (cache_get (latest_block_key chain) cache) (store.latest chain)
  where
    keep :
        (cached : Option Block) (answer : Try (Option Block))
        → IsCoherent store IsNotLatest
            (latest_through (latest_block_key chain) answer cached cache).1
    keep (some b) answer = c
    keep none throw = c
    keep none (ok none) = c
    keep none (ok (some b)) = (
      record {
        chain = chain;
        id = codes "latest";
        colon_free = h;
        keyed = refl;
        true_answer = λ p. absurd (p refl);
      },
      c,
    )
