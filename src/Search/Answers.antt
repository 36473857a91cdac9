-- ===== src/Search/Answers.antt =====
-- What the search box makes of an answer: of any, and of those that the server sends.
use btc_eth_indexer.Prelude.{
  false, List, [], ◌∷◌, Option, none, some, Text, codes, if◌then◌else◌, Try, throw, ◌≡◌, refl,
  arith, ltb, leb, length, Bool-cases, inl, inr, ◌⊎◌, ap, ◌∙◌,
}
use btc_eth_indexer.Types.{Chain, chain_text}
use btc_eth_indexer.Json.{Json, to_text}
use btc_eth_indexer.Pages.{address_path, tx_path}
use btc_eth_indexer.Server.SearchService.{Token, search, handle_search as serve_search, byte_len}
use btc_eth_indexer.Search.{
  SearchInput, Verdict, push, no_results, search_failed, fallback, verdict, conclude, finish,
}
use btc_eth_indexer.Search.Routing.{fallback_lem}

conclude_idle : (v : Verdict) (s : SearchInput) → (conclude v s).0.is_searching ≡ false
unfolding conclude
conclude_idle (push route) s = refl
conclude_idle no_results s = refl
conclude_idle search_failed s = refl

-- Every answer turns the spinner off.
pub finish_idle :
    (chain : Chain) (term : Text) (answer : Try Json) (s : SearchInput)
    → (finish chain term answer s).0.is_searching ≡ false
unfolding finish
finish_idle chain term answer s = conclude_idle (verdict chain term answer) s

-- The box behind a search that opened a page, and behind one that ended with a message.
abbrev pub opens : Text → SearchInput → SearchInput × Option Text
opens path before = (record { search = []; is_searching = false; error = before.error }, some path)

abbrev pub reports : Text → SearchInput → SearchInput × Option Text
reports message before =
    (record { search = before.search; is_searching = false; error = some message }, none)

-- The same without an address or a token: a term of a hash's length opens its transaction.
abbrev pub misses : Chain → Text → Text → SearchInput → SearchInput × Option Text
misses chain term message s =
    if leb 64 (length term) then opens (tx_path (chain_text chain) term) s else reports message s

abbrev pub unfound : Chain → Text → SearchInput → SearchInput × Option Text
unfound chain term s =
    misses chain term
      (if ltb (byte_len term) 2 then codes "Search failed" else codes "No results found") s

-- What a search comes to, by the tokens that the server finds.
unfoldable pub outcome :
    Chain → Text → Option (List Token) → SearchInput → SearchInput × Option Text
outcome chain term (some (t ∷ ts)) s = opens (codes "/address/undefined/undefined") s
outcome chain term (some []) s = unfound chain term s
outcome chain term none s = unfound chain term s

conclude-fallback :
    (chain : Chain) (term : Text) (v : Verdict) (message : Text) (s : SearchInput)
    → conclude v s ≡ reports message s
    → conclude (fallback chain term v) s ≡ misses chain term message s
unfolding conclude
conclude-fallback chain term v message s e =
    rw (fallback_lem chain term v)
      (elim (Bool-cases (leb 64 (length term))) [ inl h ↦ rw h refl | inr h ↦ rw h e ])

conclude-unfound :
    (chain : Chain) (term : Text) (s : SearchInput)
    → conclude (fallback chain term (if ltb (byte_len term) 2 then search_failed else no_results)) s
      ≡ unfound chain term s
unfolding conclude
conclude-unfound chain term s = elim (Bool-cases (ltb (byte_len term) 2)) [
  | inl h ↦ rw h (conclude-fallback chain term search_failed _ s refl)
  | inr h ↦ rw h (conclude-fallback chain term no_results _ s refl)
]

module _ (search_tokens : Text → Try (List Token)) (chain : Chain) (term : Text) where
  long_enough :
      (t : Token) (ts : List Token)
      → search search_tokens term ≡ some (t ∷ ts)
      → ltb (byte_len term) 2 ≡ false
  unfolding search
  long_enough t ts found = ground arith

  -- For all tokens that the server finds, the box opens the address page with the parameters
  -- "undefined" and "undefined".
  pub verdict_of_tokens :
      (t : Token) (ts : List Token)
      → search search_tokens term ≡ some (t ∷ ts)
      → verdict chain term (serve_search search_tokens term)
        ≡ push (address_path (codes "undefined") (codes "undefined"))
  unfolding serve_search verdict to_text
  verdict_of_tokens t ts found = rw (long_enough t ts found, found) refl

  -- When the server finds no token, the box falls back to the transaction page for terms of 64
  -- units or more, and else shows a message; a term of one byte counts as a failed search.
  verdict_of_nothing :
      (found : Option (List Token))
      → search search_tokens term ≡ found
      → (found ≡ none) ⊎ (found ≡ some [])
      → verdict chain term (serve_search search_tokens term)
        ≡ fallback chain term (if ltb (byte_len term) 2 then search_failed else no_results)
  unfolding serve_search verdict
  verdict_of_nothing found e (inl n) = rw (e, n) (ground arith)
  verdict_of_nothing found e (inr n) = rw (e, n) (ground arith)

  finish_found :
      (s : SearchInput) (found : Option (List Token))
      → search search_tokens term ≡ found
      → finish chain term (serve_search search_tokens term) s ≡ outcome chain term found s
  unfolding finish outcome conclude
  finish_found s (some (t ∷ ts)) e = ap (λ v. conclude v s) (verdict_of_tokens t ts e)
  finish_found s (some []) e =
      ap (λ v. conclude v s) (verdict_of_nothing (some []) e (inr refl))
      ∙ conclude-unfound chain term s
  finish_found s none e =
      ap (λ v. conclude v s) (verdict_of_nothing none e (inl refl)) ∙ conclude-unfound chain term s

  -- Every answer of the server to a search ends it, and so does a request that fails. With tokens
  -- the box opens the address page of "undefined". Without, or if the request failed, it opens the
  -- transaction page for a term of 64 units or more, and else shows a message: "Search failed" for
  -- a failed request or a term of one byte, and "No results found" for any other. The spinner is off;
  -- a page that is opened clears the text, and a message keeps it.
  pub finish-outcome :
      (s : SearchInput)
      → (finish chain term (serve_search search_tokens term) s
          ≡ outcome chain term (search search_tokens term) s)
        × (finish chain term throw s ≡ misses chain term (codes "Search failed") s)
  unfolding finish verdict
  finish-outcome s = (
    finish_found s _ refl,
    conclude-fallback chain term search_failed (codes "Search failed") s refl,
  )
