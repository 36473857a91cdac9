-- ===== src/Runtime.antt =====
-- What the JavaScript runtime and the date package do with numbers and dates: double-precision
-- numbers, their printing, and the printing of dates. The model takes them as they come.
use btc_eth_indexer.Prelude.{ℕ, Bool, Option, Text, ℤ}

pub record Runtime : Type 1 where
  -- the double-precision numbers
  pub Num : Type 0
  -- the double nearest to a quotient, as a literal or a count denotes it
  pub ratio : ℕ → ℕ → Num
  -- `Number(big)`
  pub of_big : ℤ → Num
  -- `Number(text)`, `parseInt(text)`, `parseFloat(text)`
  pub to_number : Text → Num
  pub parse_int : Text → Num
  pub parse_float : Text → Num
  pub div : Num → Num → Num
  pub mul : Num → Num → Num
  -- `a < b` and `a >= b`; both are false at NaN
  pub lt : Num → Num → Bool
  pub ge : Num → Num → Bool
  -- `Math.round(a)`
  pub round : Num → Num
  -- `!a`
  pub falsy : Num → Bool
  -- `String(a)`
  pub to_string : Num → Text
  -- `a.toFixed(digits)`, `a.toExponential(digits)`, `a.toLocaleString()`
  pub to_fixed : ℕ → Num → Text
  pub to_exponential : ℕ → Num → Text
  pub to_locale_string : Num → Text
  -- `new Intl.NumberFormat('en-US', { style: 'currency', … }).format(a)`
  pub currency : Num → Text
  -- `formatDistanceToNow(new Date(t), { addSuffix: true })`
  pub distance_to_now : Text → Text
  -- `new Date(t).toLocaleString()` and `toLocaleTimeString()`
  pub date_text : Text → Text
  pub time_text : Text → Text
  -- `new Date(t).getTime()` of a date that can be read, since the epoch
  pub get_time : Text → ℕ
  -- the values of JSON
  pub Json : Type 0
  -- `JSON.parse(s)`, if it does not throw
  pub json_parse : Text → Option Json
  -- `o && typeof o === "object"`, `!o`
  pub is_object : Json → Bool
  pub is_falsy_json : Json → Bool
  -- a string as a value, and `JSON.stringify(o, null, 2)`
  pub json_string : Text → Json
  pub stringify : Json → Text
  -- `atob(s)`, if it does not throw, and `new TextDecoder().decode` of its bytes
  pub atob : Text → Option Text
  pub decode_utf8 : Text → Text
