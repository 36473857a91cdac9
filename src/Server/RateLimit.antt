-- ===== src/Server/RateLimit.antt =====
-- internal/api/auth/middleware.go, and `Incr` of internal/api/cache/redis.go: the check of the API
-- key and the rate limit. A counter runs out after two windows, when its key, which holds the start
-- of the window, is no longer used; the model keeps it. Times are nanoseconds from Go's zero time, and
-- so is the start of a window in a key, where the code prints it from the Unix epoch.
pub mod Quota
use btc_eth_indexer.Prelude.{
  ℕ, suc, ◌+◌, ◌-◌, ◌*◌, ◌%◌, ◌^◌, Bool, true, false, ◌||◌, List, [], ◌∷◌, ◌++◌, Text, codes,
  text_eq, is_empty, show, ltb, ◌==◌, if◌then◌else◌,
}

-- the rate limit of the configuration
pub record Limits : Type 0 where
  pub requests : ℕ
  pub window : ℕ

-- A request as the middleware sees it, and whether the cache can be reached for it.
pub record Visit : Type 0 where
  pub api_key : Text
  pub remote_addr : Text
  pub time : ℕ
  pub cache_up : Bool

-- what the middleware does with a request
pub data Answer : Type 0 where
  unauthorized cache_error too_many served : Answer

-- every increment that was made, by its key, the latest first
abbrev pub Counters : Type 0
Counters = List Text

abbrev pub occurrences : Text → List Text → ℕ
occurrences k [] = 0
occurrences k (x ∷ xs) = (if text_eq x k then 1 else 0) + occurrences k xs

abbrev has_colon : Text → Bool
has_colon [] = false
has_colon (c ∷ s) = c == b':' || has_colon s

-- `ip[:strings.LastIndex(ip, ":")]`, or the whole text
unfoldable pub drop_port : Text → Text
drop_port [] = []
drop_port (c ∷ s) =
    let rest = c ∷ drop_port s in if has_colon s then rest else if c == b':' then [] else c ∷ s

-- `m.cfg.RateLimitWindow`, or one second
abbrev pub window_of : Limits → ℕ
window_of l = if l.window == 0 then 10 ^ 9 else l.window

-- `limitKey`
unfoldable pub limit_key : Limits → Visit → Text
unfolding drop_port
limit_key l v =
    codes "ratelimit:"
    ++ (v.api_key
        ++ (codes ":"
            ++ (drop_port v.remote_addr ++ (codes ":" ++ show (v.time - v.time % window_of l)))))

-- the answer for a request whose API key is or is not empty and for which the cache is or is not up
abbrev pub admit_key : ℕ → Text → Bool → Bool → Counters → Counters × Answer
admit_key requests key true up counters = (counters, unauthorized)
admit_key requests key false false counters = (counters, cache_error)
admit_key requests key false true counters =
    (key ∷ counters, if ltb requests (occurrences key (key ∷ counters)) then too_many else served)

-- `Handler`, up to the call of the next handler
unfoldable pub admit : Limits → Visit → Counters → Counters × Answer
unfolding limit_key
admit l v counters = admit_key l.requests (limit_key l v) (is_empty v.api_key) v.cache_up counters
