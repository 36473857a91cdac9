-- ===== src/Shared/RawData.antt =====
-- web/src/components/shared/raw-data-viewer.tsx
use btc_eth_indexer.Prelude.{
  Bool, false, Option, none, some, Text, is_empty, if◌then◌else◌, ◌≡◌, refl, [], arith,
}
use btc_eth_indexer.Runtime.{Runtime}
use btc_eth_indexer.Html.{Html, nothing, text, icon, elem, button, ◌⊕◌, links}

module _ (js : Runtime) where
  open js use {Json, json_parse, is_object, json_string, stringify}

  -- `tryParseJSON`
  unfoldable pub try_parse_json : Text → Option Json
  try_parse_json s = elim (json_parse s) [
    | none ↦ none
    | some o ↦ if is_object o then some o else none
  ]

  abbrev or_string : Text → Option Json → Json
  or_string s none = json_string s
  or_string s (some o) = o

  abbrev stringified : Text → Text
  stringified s = stringify (or_string s (try_parse_json s))

  -- `RawDataViewer` of a text, whose state is whether it has just been copied
  unfoldable pub raw_data_viewer : Option Text → Bool → Html
  raw_data_viewer none copied = nothing
  raw_data_viewer (some s) copied =
      if is_empty s
      then nothing
      else elem "div" (
          elem "div" (button false (if copied then icon "Check" else icon "Copy"))
          ⊕ elem "ScrollArea" (elem "pre" (text (stringified s))))

  pub links-raw_data_viewer :
      (d : Option Text) (copied : Bool) → links (raw_data_viewer d copied) ≡ []
  unfolding raw_data_viewer links
  links-raw_data_viewer none copied = refl
  links-raw_data_viewer (some s) copied = ground arith
