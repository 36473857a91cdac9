-- ===== src/Shared/InputData.antt =====
-- web/src/components/shared/input-data-viewer.tsx
use btc_eth_indexer.Prelude.{
  ℕ, ◌+◌, ◌-◌, ◌*◌, ◌/◌, ◌%◌, ◌<◌, Bool, true, false, List, [], ◌∷◌, ◌++◌, Option, none, some, Text,
  codes, is_empty, starts_with, take, drop, length, ltb, if◌then◌else◌, All, ◌≡◌, refl, arith, show,
  ◌==◌,
}
use btc_eth_indexer.Runtime.{Runtime}
use btc_eth_indexer.Labels.Lookup.{lookup}
use btc_eth_indexer.Html.{Html, nothing, text, icon, elem, button, ◌⊕◌, say, links}

-- a digit of `toString(16)`
abbrev pub hex_digit : ℕ → ℕ
hex_digit d = if ltb d 10 then b'0' + d else b'a' + (d - 10)

-- `c.charCodeAt(0).toString(16).padStart(2, '0')` of a byte
abbrev pub hex_byte : ℕ → Text
hex_byte c = hex_digit (c / 16) ∷ hex_digit (c % 16) ∷ []

-- `hexData` of bytes
unfoldable pub hex_of : List ℕ → Text
hex_of [] = []
hex_of (c ∷ s) = hex_byte c ++ hex_of s

-- `knownMethods`
unfoldable pub known_methods : List (Text × Text)
known_methods =
    (codes "a9059cbb", codes "transfer(address,uint256)")
    ∷ (codes "23b872dd", codes "transferFrom(address,address,uint256)")
    ∷ (codes "095ea7b3", codes "approve(address,uint256)")
    ∷ (codes "70a08231", codes "balanceOf(address)")
    ∷ (codes "18160ddd", codes "totalSupply()")
    ∷ (codes "dd62ed3e", codes "allowance(address,address)")
    ∷ (codes "313ce567", codes "decimals()")
    ∷ (codes "06fdde03", codes "name()")
    ∷ (codes "95d89b41", codes "symbol()")
    ∷ (codes "3ccfd60b", codes "withdraw()")
    ∷ (codes "d0e30db0", codes "deposit()")
    ∷ []

-- `methodName`
unfoldable pub method_name : Text → Option Text
unfolding known_methods lookup
method_name hex_data = lookup (take 8 hex_data) known_methods

abbrev pub display_hex : Text → Text
display_hex hex_data = codes "0x" ++ hex_data

-- `hexData.length / 2`
abbrev half_text : ℕ → Text
half_text n = if n % 2 == 0 then show (n / 2) else show (n / 2) ++ codes ".5"

module _ (js : Runtime) where
  open js use {Json, json_parse, is_falsy_json, stringify, atob, decode_utf8}

  pub record Decoded : Type 0 where
    pub hex_data : Text
    pub utf8_data : Text
    pub json_data : Option Json

  -- `hexData`, `utf8Data` and `jsonData`
  unfoldable pub decode : Text → Decoded
  unfolding hex_of
  decode data' = elim (atob data') [
    | some d ↦ record {
      hex_data = hex_of d;
      utf8_data = decode_utf8 d;
      json_data = json_parse (decode_utf8 d);
    }
    | none ↦ record {
      hex_data = if starts_with data' (codes "0x") then drop 2 data' else data';
      utf8_data = data';
      json_data = none;
    }
  ]

  abbrev method_view : Option Text → Html
  method_view none = nothing
  method_view (some m) = elem "div" (elem "div" (say "Method Detected") ⊕ elem "div" (text m))

  abbrev json_view : Option Json → Html
  json_view none = nothing
  json_view (some j) =
      if is_falsy_json j then nothing else elem "div" (elem "pre" (text (stringify j)))

  abbrev no_json : Option Json → Bool
  no_json none = true
  no_json (some j) = is_falsy_json j

  abbrev decoded_view : Decoded → Bool → Html
  decoded_view d copied = elem "Card" (
      elem "CardHeader" (
        elem "CardTitle" (icon "Code" ⊕ say "Input Data")
        ⊕ button false (if copied then icon "Check" else icon "Copy"))
      ⊕ method_view (method_name d.hex_data)
      ⊕ elem "Tabs" (
          button false (say "Hex")
          ⊕ button false (say "UTF-8")
          ⊕ button (no_json d.json_data) (icon "FileJson" ⊕ say "JSON")
          ⊕ elem "TabsContent" (
              elem "pre" (text (display_hex d.hex_data))
              ⊕ elem "div" (text (half_text (length d.hex_data)) ⊕ say " bytes"))
          ⊕ elem "TabsContent" (
              elem "pre" (
                text
                  (if is_empty d.utf8_data then codes "(empty or non-printable)" else d.utf8_data)))
          ⊕ elem "TabsContent" (json_view d.json_data)))

  -- `InputDataViewer`, with all its tabs; `copied` is its state
  unfoldable pub input_data_viewer : Text → Bool → Html
  unfolding decode method_name
  input_data_viewer data' copied =
      if is_empty data'
      then elem "div" (say "No input data")
      else decoded_view (decode data') copied

  links-method_view : (m : Option Text) → links (method_view m) ≡ []
  unfolding links
  links-method_view none = refl
  links-method_view (some m) = refl

  links-json_view : (j : Option Json) → links (json_view j) ≡ []
  unfolding links
  links-json_view none = refl
  links-json_view (some j) = ground arith

  links-decoded_view : (d : Decoded) (copied : Bool) → links (decoded_view d copied) ≡ []
  unfolding links
  links-decoded_view d copied =
      rw (links-method_view (method_name d.hex_data), links-json_view d.json_data) (ground arith)

  pub links-input_data_viewer :
      (data' : Text) (copied : Bool) → links (input_data_viewer data' copied) ≡ []
  unfolding input_data_viewer links
  links-input_data_viewer data' copied = ground (arith, links-decoded_view (decode data') copied)

-- the value of a hexadecimal digit, and the bytes of an even number of them
abbrev pub digit_value : ℕ → ℕ
digit_value c = if ltb c b'a' then c - b'0' else c - b'a' + 10

abbrev pub bytes_of : Text → List ℕ
bytes_of (a ∷ b ∷ s) = (digit_value a * 16 + digit_value b) ∷ bytes_of s
bytes_of _ = []

hex_byte_value :
    (c : ℕ) → c < 256 → digit_value (hex_digit (c / 16)) * 16 + digit_value (hex_digit (c % 16)) ≡ c
hex_byte_value c h = ground arith

-- The hexadecimal text of bytes reads back as those bytes, and it has two digits for each, so that
-- the number of bytes that the viewer shows is theirs.
pub hex_of_round_trip :
    (s : List ℕ)
    → All (λ c. c < 256) s
    → (bytes_of (hex_of s) ≡ s) × (length (hex_of s) / 2 ≡ length s) × (length (hex_of s) % 2 ≡ 0)
unfolding hex_of
hex_of_round_trip [] h = (refl, refl, refl)
hex_of_round_trip (c ∷ s) (hc, hs) =
    let (a, b, d) = hex_of_round_trip s hs in
    (rw (hex_byte_value c hc, a) refl, omega (arith, b, d), omega (arith, b, d))
