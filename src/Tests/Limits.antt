-- ===== src/Tests/Limits.antt =====
-- Three requests of one address under a limit of two.
use btc_eth_indexer.Prelude.{true, [], ◌∷◌, List, codes, ◌≡◌, refl}
use Prim.Native.Nat.{min}
use btc_eth_indexer.Server.RateLimit.{Limits, Visit, occurrences, limit_key, drop_port}
use btc_eth_indexer.Server.RateLimit.Quota.{served_keys, counted_keys, served_keys-quota}

abbrev two_a_second : Limits
two_a_second = record { requests = 2; window = 0 }

abbrev visit : Visit
visit = record {
  api_key = codes "test";
  remote_addr = codes "[::1]:4242";
  time = 7;
  cache_up = true;
}

abbrev visits : List Visit
visits = visit ∷ visit ∷ visit ∷ []

drop_port_test : drop_port (codes "[::1]:4242") ≡ codes "[::1]"
unfolding drop_port
drop_port_test = refl

served_keys-quota_example :
    occurrences (limit_key two_a_second visit) (served_keys two_a_second visits)
    ≡ min 2 (occurrences (limit_key two_a_second visit) (counted_keys two_a_second visits))
served_keys-quota_example = served_keys-quota two_a_second visits (limit_key two_a_second visit)
