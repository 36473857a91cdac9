-- ===== src/Server/RateLimit/Quota.antt =====
-- How many requests pass.
use btc_eth_indexer.Prelude.{
  ℕ, Bool, true, false, List, [], ◌∷◌, Text, text_eq, text_eq_iff, is_empty, ltb, if◌then◌else◌,
  ◌≡◌, refl, arith, Bool-cases, inl, inr, ap, sym, ◌∙◌,
}
use Prim.Native.Nat.{min}
use btc_eth_indexer.Server.RateLimit.{
  Limits, Visit, Answer, too_many, served, Counters, occurrences, limit_key, admit, admit_key,
}

-- the key of a request that was passed on, before those of the others
abbrev add_served : Text → Answer → List Text → List Text
add_served k served keys = k ∷ keys
add_served k _ keys = keys

-- the counters behind a sequence of requests, the last one first, and the keys of those passed on
unfoldable pub counters_after : Limits → List Visit → Counters
counters_after l [] = []
counters_after l (v ∷ vs) = (admit l v (counters_after l vs)).0

unfoldable pub served_keys : Limits → List Visit → List Text
unfolding counters_after
served_keys l [] = []
served_keys l (v ∷ vs) =
    add_served (limit_key l v) (admit l v (counters_after l vs)).1 (served_keys l vs)

abbrev add_counted : Text → Bool → Bool → List Text → List Text
add_counted k false true keys = k ∷ keys
add_counted k _ _ keys = keys

-- the keys of the requests that have an API key and reach the cache
unfoldable pub counted_keys : Limits → List Visit → List Text
counted_keys l [] = []
counted_keys l (v ∷ vs) =
    add_counted (limit_key l v) (is_empty v.api_key) v.cache_up (counted_keys l vs)

admit_key-counters :
    (n : ℕ) (key : Text) (anonymous up : Bool) (counters : Counters)
    → (admit_key n key anonymous up counters).0 ≡ add_counted key anonymous up counters
admit_key-counters n key true up counters = refl
admit_key-counters n key false false counters = refl
admit_key-counters n key false true counters = refl

counters_after-counted_keys :
    (l : Limits) (vs : List Visit) → counters_after l vs ≡ counted_keys l vs
unfolding counters_after counted_keys admit
counters_after-counted_keys l [] = refl
counters_after-counted_keys l (v ∷ vs) =
    admit_key-counters l.requests (limit_key l v) (is_empty v.api_key) v.cache_up
      (counters_after l vs)
    ∙ ap (add_counted (limit_key l v) (is_empty v.api_key) v.cache_up)
        (counters_after-counted_keys l vs)

-- one request more that is counted, in numbers
module _ (n : ℕ) (counters keys : List Text) where
  counted_step :
      (own k : Text)
      → occurrences own keys ≡ min n (occurrences own counters)
      → occurrences k keys ≡ min n (occurrences k counters)
      → occurrences k (
          add_served own
            (if ltb n (occurrences own (own ∷ counters)) then too_many else served)
            keys)
        ≡ min n (occurrences k (own ∷ counters))
  counted_step own k h g = elim (Bool-cases (text_eq own k)) [
    | inl e ↦
        let same : own ≡ k = ground (arith, text_eq_iff own k) in
        let self : text_eq own own ≡ true = ground (arith, text_eq_iff own own) in
        let count : occurrences own counters ≡ occurrences k counters =
          ap (λ t. occurrences t counters) same in
        ground arith
    | inr e ↦ ground arith
  ]

  quota_step :
      (own k : Text) (anonymous up : Bool)
      → occurrences own keys ≡ min n (occurrences own counters)
      → occurrences k keys ≡ min n (occurrences k counters)
      → occurrences k (add_served own (admit_key n own anonymous up counters).1 keys)
        ≡ min n (occurrences k (add_counted own anonymous up counters))
  quota_step own k true up h g = g
  quota_step own k false false h g = g
  quota_step own k false true h g = counted_step own k h g

served_keys-counters :
    (l : Limits) (vs : List Visit) (k : Text)
    → occurrences k (served_keys l vs) ≡ min l.requests (occurrences k (counters_after l vs))
unfolding served_keys counters_after admit
served_keys-counters l [] k = omega arith
served_keys-counters l (v ∷ vs) k =
    quota_step l.requests (counters_after l vs) (served_keys l vs) (limit_key l v) k
      (is_empty v.api_key) v.cache_up (served_keys-counters l vs (limit_key l v))
      (served_keys-counters l vs k)
    ∙ ap (λ c. min l.requests (occurrences k c))
        (sym (admit_key-counters l.requests (limit_key l v) (is_empty v.api_key) v.cache_up _))

-- Of the requests with one key of the limit that have an API key and reach the cache, as many are
-- passed on as the limit allows: all of them, or exactly the number of the limit.
pub served_keys-quota :
    (l : Limits) (vs : List Visit) (k : Text)
    → occurrences k (served_keys l vs) ≡ min l.requests (occurrences k (counted_keys l vs))
served_keys-quota l vs k =
    served_keys-counters l vs k
    ∙ ap (λ c. min l.requests (occurrences k c)) (counters_after-counted_keys l vs)
