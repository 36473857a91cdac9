-- ===== src/Json.antt =====
-- The values of a response body, as untyped code reads them.
use btc_eth_indexer.Prelude.{
  ℕ, Bool, true, false, not, Text, String, codes, text_eq, is_empty, show, ◌==◌, if◌then◌else◌, Try,
  ok, throw, ◌++◌, [],
}

mutual
  pub data Json : Type 0 where
    undefined null : Json
    boolean : Bool → Json
    -- the natural numbers only
    number : ℕ → Json
    string : Text → Json
    array : Items → Json
    object : Fields → Json

  pub data Items : Type 0 where
    nil : Items
    cons : Json → Items → Items

  pub data Fields : Type 0 where
    end : Fields
    field : Text → Json → Fields → Fields

abbrev find : Text → Fields → Json
find key end = undefined
find key (field k v fs) = let rest = find key fs in if text_eq k key then v else rest

-- `v.key`, for a key that no prototype has; reading it of `null` or `undefined` throws
abbrev pub prop : String → Json → Try Json
prop key undefined = throw
prop key null = throw
prop key (object fs) = ok (find (codes key) fs)
prop key _ = ok undefined

-- `if (v)`
abbrev pub truthy : Json → Bool
truthy undefined = false
truthy null = false
truthy (boolean b) = b
truthy (number n) = not (n == 0)
truthy (string s) = not (is_empty s)
truthy _ = true

-- `v === 'text'`
abbrev pub is_text : Json → String → Bool
is_text (string s) t = text_eq s (codes t)
is_text _ t = false

-- `v[0]` where `Array.isArray(v) && v.length > 0`
abbrev pub array_head : Json → Try Json
array_head (array (cons v _)) = ok v
array_head _ = throw

abbrev pub is_filled_array : Json → Bool
is_filled_array (array (cons v _)) = true
is_filled_array _ = false

-- `${v}`; the elements of an array are joined by commas, and `null` there is empty
unfoldable mutual
  pub to_text : Json → Text
  to_text undefined = codes "undefined"
  to_text null = codes "null"
  to_text (boolean true) = codes "true"
  to_text (boolean false) = codes "false"
  to_text (number n) = show n
  to_text (string s) = s
  to_text (array vs) = items_text vs
  to_text (object fs) = codes "[object Object]"

  items_text : Items → Text
  items_text nil = []
  items_text (cons v nil) = item_text v
  items_text (cons v (cons w ws)) = item_text v ++ (codes "," ++ items_text (cons w ws))

  item_text : Json → Text
  item_text undefined = []
  item_text null = []
  item_text (boolean true) = codes "true"
  item_text (boolean false) = codes "false"
  item_text (number n) = show n
  item_text (string s) = s
  item_text (array vs) = items_text vs
  item_text (object fs) = codes "[object Object]"
