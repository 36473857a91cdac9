-- ===== src/Server/SearchService.antt =====
-- `Service.Search` of internal/api/service/service.go, `handleSearch` of
-- internal/api/server/server.go, and the JSON of `types.Token`. The token store is a parameter.
use btc_eth_indexer.Prelude.{
  ℕ, ◌+◌, false, ◌&&◌, ◌||◌, List, [], ◌∷◌, Option, none, some, Text, codes, String, starts_with,
  ltb, ◌==◌, if◌then◌else◌, Try, ok, throw,
}
use btc_eth_indexer.Types.{Chain, chain_text}
use btc_eth_indexer.Json.{
  Json, boolean, number, string, array, object, Items, nil, cons, Fields, end, field,
}

-- `types.Token`
pub record Token : Type 0 where
  pub chain_id : Chain
  pub address : Text
  pub name : Text
  pub symbol : Text
  pub decimals : ℕ
  pub first_seen_height : ℕ
  pub last_seen_height : ℕ
  pub created_at : Text

abbrev key : String → Json → Fields → Fields
key k v fs = field (codes k) v fs

-- the JSON encoding, under the tags of the struct's fields
abbrev pub token_json : Token → Json
token_json t = object (
    key "chain_id" (string (chain_text t.chain_id)) (
      key "address" (string t.address) (
        key "name" (string t.name) (
          key "symbol" (string t.symbol) (
            key "decimals" (number t.decimals) (
              key "first_seen_height" (number t.first_seen_height) (
                key "last_seen_height" (number t.last_seen_height)
                  (key "created_at" (string t.created_at) end))))))))

abbrev pub tokens_json : List Token → Items
tokens_json [] = nil
tokens_json (t ∷ ts) = cons (token_json t) (tokens_json ts)

-- `len(q)`: the bytes of the UTF-8 encoding; each half of a surrogate pair counts for two
unfoldable pub byte_len : Text → ℕ
byte_len [] = 0
byte_len (c ∷ s) =
    (if ltb c 0x80
      then 1
      else if ltb c 0x800
      then 2
      else if ltb c 0xd800
      then 3
      else if ltb c 0xe000
      then 2
      else 3)
    + byte_len s

abbrev pub found_tokens : Try (List Token) → Option (List Token)
found_tokens throw = none
found_tokens (ok []) = none
found_tokens (ok (t ∷ ts)) = some (t ∷ ts)

abbrev or_else : Option (List Token) → Option (List Token) → Option (List Token)
or_else (some ts) other = some ts
or_else none other = other

-- `s.store.SearchTokens(ctx, q)`; both calls of one search find the same tokens
module _ (search_tokens : Text → Try (List Token)) where
  -- `Service.Search`: a token list, or `nil`
  unfoldable pub search : Text → Option (List Token)
  unfolding byte_len
  search q =
      if ltb (byte_len q) 3
      then none
      else let is_hex = (ltb 1 (byte_len q) && starts_with q (codes "0x")) || byte_len q == 64 in
        let found = found_tokens (search_tokens q) in if is_hex then found else or_else found found

  abbrev search_response : Option (List Token) → Json
  search_response none = object (key "found" (boolean false) end)
  search_response (some ts) =
      object (key "type" (string (codes "token_list")) (key "data" (array (tokens_json ts)) end))

  -- `handleSearch`, as the client sees it: an error status rejects the request
  unfoldable pub handle_search : Text → Try Json
  unfolding search
  handle_search q = if ltb (byte_len q) 2 then throw else ok (search_response (search q))
