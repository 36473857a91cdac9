-- ===== src/Labels/Reachable.antt =====
-- Which labels an address can get.
use mathlib.Core.List.{Memᴰ}
use mathlib.Core.Path.{subst}
use btc_eth_indexer.Prelude.{
  String, Bool, true, false, not, ◌&&◌, List, [], ◌∷◌, some, Text, codes, text_eq, text_eq_iff,
  to_lower, ◌≡◌, ◌≢◌, refl, ap, sym, ◌∙◌, arith, all, All,
}
use btc_eth_indexer.Types.{btc, eth}
use btc_eth_indexer.Labels.Lookup.{lookup, lower_keyed, lookup-lower_keyed, to_lower_idem}
use btc_eth_indexer.Labels.Known.{AddressLabel, known_addresses, get_address_label}
use btc_eth_indexer.Labels.Entities.{EntityLabel, eth_labels, btc_labels, get_entity_label}

module _ {ℓ} {V : Type ℓ} where
  -- what holds of every value of a table holds of what is found
  lookup-all :
      (p : V → Bool) (k : Text) (table : List (Text × V)) (v : V)
      → all (λ e. p e.1) table ≡ true
      → lookup k table ≡ some v
      → p v ≡ true
  unfolding lookup
  lookup-all p k [] v h e = absurd (cc e)
  lookup-all p k ((j, w) ∷ rest) v h e = ground (arith, lookup-all p k rest v)

  abbrev is_fresh : Text → List (Text × V) → Bool
  is_fresh k table = all (λ e. not (text_eq k e.0)) table

  -- no key stands twice
  abbrev distinct_keys : List (Text × V) → Bool
  distinct_keys [] = true
  distinct_keys ((k, v) ∷ rest) = is_fresh k rest && distinct_keys rest

  abbrev Finds : List (Text × V) → List (Text × V) → Type ℓ
  Finds table = All (λ e. lookup e.0 table ≡ some e.1)

  Finds-cons :
      (k : Text) (v : V) (table entries : List (Text × V))
      → is_fresh k entries ≡ true
      → Finds table entries
      → Finds ((k, v) ∷ table) entries
  unfolding lookup
  Finds-cons k v table [] f h = tt
  Finds-cons k v table ((j, w) ∷ rest) f (found, h) =
      let other : text_eq k j ≡ false = ground arith in
      (rw other found, Finds-cons k v table rest (ground arith) h)

  distinct-Finds : (table : List (Text × V)) → distinct_keys table ≡ true → Finds table table
  unfolding lookup
  distinct-Finds [] h = tt
  distinct-Finds ((k, v) ∷ rest) h =
      let same : text_eq k k ≡ true = (text_eq_iff k k).1 refl in
      (rw same refl, Finds-cons k v rest rest (ground arith) (distinct-Finds rest (ground arith)))

abbrev named : String → AddressLabel → Bool
named name label = text_eq label.name (codes name)

reachable_names :
    all (λ e. not (named "Satoshi's Genesis" e.1)) (lower_keyed known_addresses) ≡ true
unfolding lower_keyed known_addresses to_lower
reachable_names = refl

-- No address, in whatever case, gets the label "Satoshi's Genesis": its key has upper-case letters,
-- and the address is lower-cased before the table is read.
pub genesis_label_unreachable :
    (address : Text) (label : AddressLabel)
    → get_address_label address ≡ some label
    → label.name ≢ codes "Satoshi's Genesis"
unfolding get_address_label
genesis_label_unreachable address label e same =
    let found = (sym (lookup-lower_keyed address known_addresses)) ∙ e in
    let other =
      lookup-all (λ l. not (named "Satoshi's Genesis" l)) (to_lower address) _ label reachable_names
        found in
    let is_it = (text_eq_iff label.name (codes "Satoshi's Genesis")).1 same in
    absurd (ground (arith, other, is_it))

-- The label of an address does not depend on the case of its letters.
pub get_address_label-to_lower :
    (address : Text) → get_address_label (to_lower address) ≡ get_address_label address
unfolding get_address_label
get_address_label-to_lower address =
    ap (λ (s : Text). lookup s known_addresses) (to_lower_idem address)

eth_keys_distinct : distinct_keys eth_labels ≡ true
unfolding eth_labels
eth_keys_distinct = refl

btc_keys_distinct : distinct_keys btc_labels ≡ true
unfolding btc_labels
btc_keys_distinct = refl

of_All {ℓ κ} : {A : Type ℓ} (P : A → Type κ) (x : A) (xs : List A) → Memᴰ x xs → All P xs → P x
of_All P x [] m h = elim m [ ]
of_All P x (y ∷ xs) (Memᴰ.head same) (p, h) = subst P (sym same) p
of_All P x (y ∷ xs) (Memᴰ.tail m) (p, h) = of_All P x xs m h

-- An entry of the Ethereum table is found, with its own label, from its address in any case.
pub eth_labels_found :
    (address key : Text) (label : EntityLabel)
    → Memᴰ (key, label) eth_labels
    → to_lower address ≡ key
    → get_entity_label address eth ≡ some label
unfolding get_entity_label
eth_labels_found address key label listed same =
    ap (λ (s : Text). lookup s eth_labels) same
    ∙ of_All (λ e. lookup e.0 eth_labels ≡ some e.1) (key, label) eth_labels listed
        (distinct-Finds eth_labels eth_keys_distinct)

-- An entry of the Bitcoin table is found, with its own label, from its exact address.
pub btc_labels_found :
    (address : Text) (label : EntityLabel)
    → Memᴰ (address, label) btc_labels
    → get_entity_label address btc ≡ some label
unfolding get_entity_label
btc_labels_found address label listed =
    let found : lookup address btc_labels ≡ some label =
      of_All (λ e. lookup e.0 btc_labels ≡ some e.1) (address, label) btc_labels listed
        (distinct-Finds btc_labels btc_keys_distinct) in
    rw found refl
