-- ===== src/Api/Agreement.antt =====
-- The client and the server agree on the addresses of the API.
use btc_eth_indexer.Prelude.{
  false, List, [], ◌∷◌, ◌++◌, some, Text, codes, text_eq, text_eq_iff, is_empty, join_with,
  split_on-join_with, Lacks, All, ◌≡◌, ◌≢◌, refl, ap, ◌∙◌, arith,
}
use btc_eth_indexer.Types.{Chain, chain_text}
use btc_eth_indexer.Pages.{IsSegment}
use btc_eth_indexer.Pages.RoundTrip.{chain_text-IsSegment}
use btc_eth_indexer.Api.{Call, path_of}
use btc_eth_indexer.Server.Routes.{Handler, handler_of_parts, route}

-- The texts that a call puts into its path can stand there; the word "range" is no block.
abbrev pub IsSendable : Call → Type 0
IsSendable (Call.get_block c id) = IsSegment id × (id ≢ codes "range")
IsSendable (Call.get_transaction c hash) = IsSegment hash
IsSendable (Call.get_address_txs c a cursor limit) = IsSegment a
IsSendable (Call.get_block_txs c id cursor limit) = IsSegment id
IsSendable (Call.get_address_balance c a) = IsSegment a
IsSendable (Call.get_contract c a) = IsSegment a
IsSendable (Call.get_address_stats c a) = IsSegment a
IsSendable (Call.get_token_balances c a) = IsSegment c × IsSegment a
IsSendable (Call.get_token_transfers c a limit offset) = IsSegment c × IsSegment a
IsSendable _ = Unit

-- the handler that is meant by a call, with its parameters
pub handler_for : Call → Handler
handler_for Call.get_health = Handler.health
handler_for (Call.get_latest_block c) = Handler.get_latest_block
handler_for (Call.get_block c id) = Handler.get_block (chain_text c) id
handler_for (Call.get_transaction c hash) = Handler.get_tx (chain_text c) hash
handler_for (Call.get_address_txs c a cursor limit) = Handler.get_address_txs (chain_text c) a
handler_for (Call.get_events topic0 from to cursor) = Handler.get_events
handler_for (Call.get_latest_txs c limit) = Handler.get_latest_txs
handler_for (Call.get_stats c) = Handler.get_stats (chain_text c)
handler_for (Call.get_block_txs c id cursor limit) = Handler.get_block_txs (chain_text c) id
handler_for (Call.get_blocks_range c from to) = Handler.get_blocks_range (chain_text c)
handler_for (Call.get_address_balance c a) = Handler.get_address_balance (chain_text c) a
handler_for (Call.get_contract c a) = Handler.get_contract (chain_text c) a
handler_for (Call.get_address_stats c a) = Handler.get_address_stats (chain_text c) a
handler_for (Call.get_token_balances c a) = Handler.get_token_balances c a
handler_for (Call.get_token_transfers c a limit offset) = Handler.get_token_transfers c a
handler_for (Call.get_pending_txs c) = Handler.get_pending_txs (chain_text c)
handler_for (Call.search q) = Handler.handle_search

-- the handler of a path that is joined from its parts
route-parts :
    (part : Text) (parts : List Text)
    → Lacks 47 part
    → All (Lacks 47) parts
    → route (join_with 47 ([] ∷ part ∷ parts)) ≡ handler_of_parts ([] ∷ part ∷ parts)
unfolding route
route-parts part parts h hs =
    ap handler_of_parts (split_on-join_with 47 [] (part ∷ parts) (tt, (h, hs)))

module _ (c : Text) (hc : IsSegment c) where
  route-stats : route (codes "/stats/" ++ c) ≡ some (Handler.get_stats c)
  unfolding join_with
  route-stats =
      route-parts (codes "stats") (c ∷ []) (omega arith) (hc.slash_free, tt) ∙ rw hc.filled refl

  route-pending : route (codes "/txs/pending/" ++ c) ≡ some (Handler.get_pending_txs c)
  unfolding join_with
  route-pending =
      route-parts (codes "txs") (codes "pending" ∷ c ∷ []) (omega arith)
        (omega arith, (hc.slash_free, tt))
      ∙ rw hc.filled refl

  route-range :
      route (codes "/blocks/" ++ (c ++ codes "/range")) ≡ some (Handler.get_blocks_range c)
  unfolding join_with
  route-range =
      route-parts (codes "blocks") (c ∷ codes "range" ∷ []) (omega arith)
        (hc.slash_free, (omega arith, tt))
      ∙ rw hc.filled refl

  module _ (s : Text) (hs : IsSegment s) where
    -- two parameters behind a word
    route-three :
        (word : Text)
        → Lacks 47 word
        → route (join_with 47 ([] ∷ word ∷ c ∷ s ∷ [])) ≡ handler_of_parts ([] ∷ word ∷ c ∷ s ∷ [])
    route-three word h = route-parts word (c ∷ s ∷ []) h (hc.slash_free, (hs.slash_free, tt))

    -- two parameters between words
    route-four :
        (word last : Text)
        → Lacks 47 word
        → Lacks 47 last
        → route (join_with 47 ([] ∷ word ∷ c ∷ s ∷ last ∷ []))
          ≡ handler_of_parts ([] ∷ word ∷ c ∷ s ∷ last ∷ [])
    route-four word last h k =
        route-parts word (c ∷ s ∷ last ∷ []) h (hc.slash_free, (hs.slash_free, (k, tt)))

    route-block :
        s ≢ codes "range"
        → route (codes "/blocks/" ++ (c ++ (codes "/" ++ s))) ≡ some (Handler.get_block c s)
    unfolding join_with
    route-block n =
        let other : text_eq s (codes "range") ≡ false =
          ground (arith, text_eq_iff s (codes "range")) in
        route-three (codes "blocks") (omega arith) ∙ rw (hs.filled, other, hc.filled) refl

    route-address_stats :
        route (codes "/stats/address/" ++ (c ++ (codes "/" ++ s)))
        ≡ some (Handler.get_address_stats c s)
    unfolding join_with
    route-address_stats =
        route-parts (codes "stats") (codes "address" ∷ c ∷ s ∷ []) (omega arith)
          (omega arith, (hc.slash_free, (hs.slash_free, tt)))
        ∙ rw (hc.filled, hs.filled) refl

chain_filled : (c : Chain) → is_empty (chain_text c) ≡ false
chain_filled c = (chain_text-IsSegment c).filled

-- Every request of the client reaches the handler of the server that is meant by it, with the
-- chain and the identifier in their places, if the identifiers can stand in a path and no block is
-- asked for by the word "range".
pub route-path_of : (call : Call) → IsSendable call → route (path_of call) ≡ some (handler_for call)
unfolding path_of handler_for route join_with
route-path_of Call.get_health h = refl
route-path_of (Call.get_latest_block c) h = refl
route-path_of (Call.get_block c id) (h, n) =
    route-block (chain_text c) (chain_text-IsSegment c) id h n
route-path_of (Call.get_transaction c hash) h =
    route-three (chain_text c) (chain_text-IsSegment c) hash h (codes "tx") (omega arith)
    ∙ rw (h.filled, chain_filled c) refl
route-path_of (Call.get_address_txs c a cursor limit) h =
    route-four (chain_text c) (chain_text-IsSegment c) a h (codes "address") (codes "txs")
      (omega arith) (omega arith)
    ∙ rw (h.filled, chain_filled c) refl
route-path_of (Call.get_events topic0 from to cursor) h = refl
route-path_of (Call.get_latest_txs c limit) h = refl
route-path_of (Call.get_stats c) h = route-stats (chain_text c) (chain_text-IsSegment c)
route-path_of (Call.get_block_txs c id cursor limit) h =
    route-four (chain_text c) (chain_text-IsSegment c) id h (codes "blocks") (codes "txs")
      (omega arith) (omega arith)
    ∙ rw (h.filled, chain_filled c) refl
route-path_of (Call.get_blocks_range c from to) h =
    route-range (chain_text c) (chain_text-IsSegment c)
route-path_of (Call.get_address_balance c a) h =
    route-three (chain_text c) (chain_text-IsSegment c) a h (codes "balance") (omega arith)
    ∙ rw (h.filled, chain_filled c) refl
route-path_of (Call.get_contract c a) h =
    route-three (chain_text c) (chain_text-IsSegment c) a h (codes "contract") (omega arith)
    ∙ rw (h.filled, chain_filled c) refl
route-path_of (Call.get_address_stats c a) h =
    route-address_stats (chain_text c) (chain_text-IsSegment c) a h
route-path_of (Call.get_token_balances c a) (hc, h) =
    route-four c hc a h (codes "tokens") (codes "balances") (omega arith) (omega arith)
    ∙ rw (h.filled, hc.filled) refl
route-path_of (Call.get_token_transfers c a limit offset) (hc, h) =
    route-four c hc a h (codes "tokens") (codes "transfers") (omega arith) (omega arith)
    ∙ rw (h.filled, hc.filled) refl
route-path_of (Call.get_pending_txs c) h = route-pending (chain_text c) (chain_text-IsSegment c)
route-path_of (Call.search q) h = refl
