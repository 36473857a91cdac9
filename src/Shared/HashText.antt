-- ===== src/Shared/HashText.antt =====
-- web/src/components/shared/ui-text/hash-text.tsx and time-ago.tsx
use btc_eth_indexer.Prelude.{
  ℕ, ◌+◌, Bool, false, [], ◌∷◌, Text, is_empty, length, ltb, if◌then◌else◌, ◌≡◌, ◌≢◌, arith,
}
use btc_eth_indexer.Runtime.{Runtime}
use btc_eth_indexer.Html.{Html, nothing, text, icon, elem, button, ◌⊕◌, say, when, links}
use btc_eth_indexer.Format.{ellipsis, shorten_hash}

-- `display` of `HashText`
unfoldable pub display_hash : Text → ℕ → ℕ → Text
display_hash hash start_chars end_chars =
    if ltb (start_chars + end_chars + 3) (length hash)
    then ellipsis start_chars end_chars hash
    else hash

abbrev copy_icon : Bool → Html
copy_icon copied = if copied then icon "Check" else icon "Copy"

-- `HashText`, whose state is whether it has just been copied
unfoldable pub hash_text : Text → ℕ → ℕ → Bool → Bool → Html
unfolding display_hash
hash_text hash start_chars end_chars copyable copied =
    if is_empty hash
    then elem "span" (say "-")
    else elem "div" (
        elem "span" (text (display_hash hash start_chars end_chars))
        ⊕ when copyable (button false (copy_icon copied)))

-- `TimeAgo`
unfoldable pub time_ago : Runtime → Text → Bool → Html
time_ago js timestamp with_icon =
    if is_empty timestamp
    then nothing
    else if with_icon
    then elem "div" (icon "Clock" ⊕ elem "span" (text (js.distance_to_now timestamp)))
    else elem "span" (text (js.distance_to_now timestamp))

pub links-time_ago : (js : Runtime) (t : Text) (b : Bool) → links (time_ago js t b) ≡ []
unfolding time_ago links
links-time_ago js t b = ground arith

pub links-hash_text : (hash : Text) (s e : ℕ) (b c : Bool) → links (hash_text hash s e b c) ≡ []
unfolding hash_text links
links-hash_text hash s e b c = ground arith

-- The two ways of the site to cut a hash agree except on a hash of exactly `s + e + 3` units, which
-- `shortenHash` cuts and `HashText` shows whole.
pub display_hash-eq-shorten_hash :
    (hash : Text) (s e : ℕ)
    → length hash ≢ s + e + 3
    → display_hash hash s e ≡ shorten_hash hash s e
unfolding display_hash shorten_hash
display_hash-eq-shorten_hash [] s e h = ground arith
display_hash-eq-shorten_hash (c ∷ hash) s e h = ground arith
