-- ===== src/Query.antt =====
-- What `useQuery` of @tanstack/react-query hands to a component: the component reads these fields
-- and the package decides when they change.
use btc_eth_indexer.Prelude.{Bool, Option, none, some, Text, false}

pub record Query {ℓ} (A : Type ℓ) : Type ℓ where
  pub data' : Option A
  pub is_loading : Bool
  pub is_error : Bool
  -- the message of `error`, if it is an `Error`
  pub error_message : Option Text

-- the query of a request that has been answered
abbrev pub answered {ℓ} : {A : Type ℓ} → A → Query A
answered x = record { data' = some x; is_loading = false; is_error = false; error_message = none }

-- `error instanceof Error ? error.message : fallback`
abbrev pub message_or : Text → Option Text → Text
message_or fallback none = fallback
message_or fallback (some m) = m
