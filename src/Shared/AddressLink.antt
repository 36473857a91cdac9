-- ===== src/Shared/AddressLink.antt =====
-- web/src/components/shared/address-link.tsx
use btc_eth_indexer.Prelude.{Bool, Option, none, some, Text, if◌then◌else◌}
use btc_eth_indexer.Types.{Chain, chain_text}
use btc_eth_indexer.Html.{Html, nothing, text, elem, link, ◌⊕◌, when, AllLinks, AllLinks-when}
use btc_eth_indexer.Format.{shorten_address}
use btc_eth_indexer.Labels.Known.{AddressLabel, get_address_label}
use btc_eth_indexer.Pages.{address_path, IsSegment, IsLive}
use btc_eth_indexer.Pages.RoundTrip.{address_path-IsLive}

abbrev label_badge : Option AddressLabel → Html
label_badge none = nothing
label_badge (some label) = elem "Badge" (text label.name)

-- `AddressLink`
unfoldable pub address_link : Text → Chain → Bool → Bool → Html
address_link address chain show_label shorten = elem "span" (
    link (address_path (chain_text chain) address)
      (text (if shorten then shorten_address address else address))
    ⊕ when show_label (label_badge (get_address_label address)))

AllLinks-label_badge {ℓ} :
    (P : Text → Type ℓ) (label : Option AddressLabel) → AllLinks P (label_badge label)
AllLinks-label_badge P none = tt
AllLinks-label_badge P (some label) = tt

-- The link of an address goes to its page.
pub address_link-IsLive :
    (address : Text) (chain : Chain) (show_label shorten : Bool)
    → IsSegment address
    → AllLinks IsLive (address_link address chain show_label shorten)
unfolding address_link
address_link-IsLive address chain show_label shorten h = (
  (address_path-IsLive chain address h, tt),
  AllLinks-when IsLive show_label _ (AllLinks-label_badge IsLive (get_address_label address)),
)
