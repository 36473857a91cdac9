-- ===== src/Shared/Badges.antt =====
-- web/src/components/shared/badges: chain-badge.tsx and status-badge.tsx
use btc_eth_indexer.Prelude.{
  String, Bool, true, false, List, [], ◌∷◌, Option, none, some, Text, codes, is_empty, text_eq,
  to_lower, if◌then◌else◌, ◌≡◌, refl,
}
use btc_eth_indexer.Labels.Lookup.{lookup}
use btc_eth_indexer.Html.{Html, text, icon, elem, ◌⊕◌, links}
use btc_eth_indexer.Types.{Chain, chain_text}

-- `ChainBadge`; the variant of the badge is part of its tag
unfoldable pub chain_badge : Text → Html
unfolding to_lower
chain_badge chain =
    if text_eq (to_lower chain) (codes "btc")
    then elem "Badge-default" (text chain)
    else elem "Badge-secondary" (text chain)

pub record StatusConfig : Type 0 where
  pub label : Text
  pub icon_name : String
  pub class_name : Text
  pub animate : Bool

abbrev entry : String → String → String → String → Bool → Text × StatusConfig
entry key label icon_name class_name animate = (
  codes key,
  record {
    label = codes label;
    icon_name = icon_name;
    class_name = codes class_name;
    animate = animate;
  },
)

abbrev unknown_config : StatusConfig
unknown_config = record {
  label = codes "Unknown";
  icon_name = "Clock";
  class_name = codes "bg-gray-500/20 text-gray-400 border-gray-500/30";
  animate = false;
}

-- `config`
unfoldable pub status_config : List (Text × StatusConfig)
status_config =
    entry "pending" "Pending" "Loader2" "bg-yellow-500/20 text-yellow-400 border-yellow-500/30" true
    ∷ entry "finalized" "Finalized" "CheckCircle2"
        "bg-green-500/20 text-green-400 border-green-500/30" false
    ∷ entry "confirmed" "Confirmed" "CheckCircle2"
        "bg-green-500/20 text-green-400 border-green-500/30" false
    ∷ entry "failed" "Failed" "XCircle" "bg-red-500/20 text-red-400 border-red-500/30" false
    ∷ entry "orphaned" "Orphaned" "XCircle" "bg-gray-500/20 text-gray-400 border-gray-500/30" false
    ∷ (codes "unknown", unknown_config)
    ∷ []

abbrev or_unknown : Option StatusConfig → StatusConfig
or_unknown none = unknown_config
or_unknown (some c) = c

-- `status?.toLowerCase() || "unknown"`, read in the table
unfoldable pub config_of : Text → StatusConfig
unfolding status_config lookup to_lower
config_of status =
    or_unknown (lookup (if is_empty status then codes "unknown" else to_lower status) status_config)

-- `StatusBadge`
unfoldable pub status_badge : Text → Html
unfolding config_of
status_badge status =
    elem "Badge-outline" (icon (config_of status).icon_name ⊕ text (config_of status).label)

pub links-chain_badge : (chain : Chain) → links (chain_badge (chain_text chain)) ≡ []
unfolding chain_badge links
links-chain_badge Chain.btc = refl
links-chain_badge Chain.eth = refl

pub links-status_badge : (status : Text) → links (status_badge status) ≡ []
unfolding status_badge links
links-status_badge status = refl
