-- ===== src/Pollers/Decoder.antt =====
-- internal/poller/eth/decoder.go: the log of a contract as an event with parameters. The ABI of a
-- contract, numbers, addresses and hashes are those of go-ethereum.
use btc_eth_indexer.Prelude.{
  ℕ, zero, suc, ◌^◌, ◌%◌, Bool, not, ◌&&◌, ltb, ◌==◌, List, [], ◌∷◌, ◌++◌, Option, none, some, Text,
  codes, show, text_eq, length, filter, is_empty, if◌then◌else◌, Try, ok, throw,
}

-- `abi.Type.T`, as far as the decoder tells the kinds apart
pub data AbiType : Type 0 where
  string_ty bytes_ty slice_ty array_ty address_ty bool_ty int_ty uint_ty other_ty : AbiType

-- `abi.Argument`
pub record Argument : Type 0 where
  pub name : Text
  pub indexed : Bool
  pub type' : AbiType

-- What the decoder calls of go-ethereum, and `%x` of fmt.
pub record Geth (Address Hash : Type 0) : Type 0 where
  pub address_hex : Address → Text
  pub hash_hex : Hash → Text
  pub bytes_to_address : Hash → Address
  pub big : Hash → ℕ
  pub bytes_hex : List ℕ → Text

-- the dynamic types of an unpacked value that `formatValue` tells apart
pub data Value (Address Hash V : Type 0) : Type 0 where
  address : Address → Value Address Hash V
  hash : Hash → Value Address Hash V
  bytes : List ℕ → Value Address Hash V
  bytes32 : List ℕ → Value Address Hash V
  -- a `fmt.Stringer`, with its text
  stringer : Text → Value Address Hash V
  other : V → Value Address Hash V

-- a value of `Params`
pub data Param (V : Type 0) : Type 0 where
  text : Text → Param V
  bool : Bool → Param V
  raw : V → Param V

-- `abi.Event`, with `Inputs.UnpackValues`, which may fail
pub record AbiEvent (Address Hash V : Type 0) : Type 0 where
  pub name : Text
  pub inputs : List Argument
  pub unpack_values : List ℕ → Option (List (Value Address Hash V))

-- `Decoder`: the ABI of a contract, as the event of a signature
pub record Decoder (Address Hash V : Type 0) : Type 0 where
  pub abis : Address → Option (Hash → Option (AbiEvent Address Hash V))

-- `ethtypes.Log`
pub record Log (Address Hash : Type 0) : Type 0 where
  pub address : Address
  pub topics : List Hash
  pub data' : List ℕ

-- `Params`, a map
abbrev pub Params : Type 0 → Type 0
Params V = Text → Option (Param V)

-- `DecodedEvent`
pub record DecodedEvent (V : Type 0) : Type 0 where
  pub name : Text
  pub params : Params V

-- What a call of `DecodeLog` does; a panic ends the program, since nothing recovers from it.
pub data Decoding (V : Type 0) : Type 0 where
  decoded : DecodedEvent V → Decoding V
  no_topics no_abi unknown_event unpack_failed panicked : Decoding V

-- `list[i]`
unfoldable pub get_elem? {ℓ} : {A : Type ℓ} → List A → ℕ → Option A
get_elem? [] i = none
get_elem? (x ∷ xs) zero = some x
get_elem? (x ∷ xs) (suc i) = get_elem? xs i

-- `params[name] = value`
abbrev pub set : {V : Type 0} → Text → Param V → Params V → Params V
set name v ps key = if text_eq key name then some v else ps key

-- `indexed`
abbrev pub indexed_of : List Argument → List Argument
indexed_of inputs = filter (λ a. a.indexed) inputs

-- `nonIndexed`
abbrev pub non_indexed_of : List Argument → List Argument
non_indexed_of inputs = filter (λ a. not a.indexed) inputs

module _ {Address Hash V : Type 0} (geth : Geth Address Hash) where
  -- `decodeIndexedArg`, which has no error to return
  unfoldable pub decode_indexed_arg : AbiType → Hash → Try (Param V)
  decode_indexed_arg address_ty topic = ok (text (geth.address_hex (geth.bytes_to_address topic)))
  decode_indexed_arg bool_ty topic = ok (bool (not (geth.big topic % 2 ^ 64 == 0)))
  decode_indexed_arg int_ty topic = ok (text (show (geth.big topic)))
  decode_indexed_arg uint_ty topic = ok (text (show (geth.big topic)))
  decode_indexed_arg _ topic = ok (text (geth.hash_hex topic))

  -- `decodeIndexedArg` with the fallback of `DecodeLog`
  abbrev or_hash : Hash → Try (Param V) → Param V
  or_hash topic (ok v) = v
  or_hash topic throw = text (geth.hash_hex topic)

  -- the parameter of a topic; of a string, bytes or list a topic has the hash only
  abbrev topic_param : AbiType → Hash → Param V
  topic_param string_ty topic = text (geth.hash_hex topic)
  topic_param bytes_ty topic = text (geth.hash_hex topic)
  topic_param slice_ty topic = text (geth.hash_hex topic)
  topic_param array_ty topic = text (geth.hash_hex topic)
  topic_param t topic = or_hash topic (decode_indexed_arg t topic)

  -- the loop over `indexed`, with the topics behind the first
  unfoldable pub decode_topics : List Argument → List Hash → Params V → Params V
  decode_topics [] topics ps = ps
  decode_topics (a ∷ args) [] ps = ps
  decode_topics (a ∷ args) (t ∷ topics) ps =
      decode_topics args topics (set a.name (topic_param a.type' t) ps)

  -- `formatValue`
  unfoldable pub format_value : Value Address Hash V → Param V
  format_value (address a) = text (geth.address_hex a)
  format_value (hash h) = text (geth.hash_hex h)
  format_value (bytes bs) = text (codes "0x" ++ geth.bytes_hex bs)
  format_value (bytes32 bs) = text (codes "0x" ++ geth.bytes_hex bs)
  format_value (stringer s) = text s
  format_value (other v) = raw v

  abbrev pub with_value :
      Option (Value Address Hash V) → (Value Address Hash V → Option (Params V)) → Option (Params V)
  with_value none k = none
  with_value (some v) k = k v

  -- the loop over `event.Inputs` from `i` on; `none` is a panic, as `values[i]` is out of range
  unfoldable pub assign :
      List (Value Address Hash V) → ℕ → ℕ → List Argument → Params V → Option (Params V)
  assign values i non_indexed_idx [] ps = some ps
  assign values i non_indexed_idx (a ∷ args) ps =
      if a.indexed
      then assign values (suc i) non_indexed_idx args ps
      else if ltb non_indexed_idx (length values)
      then with_value (get_elem? values i)
          (λ v. assign values (suc i) (suc non_indexed_idx) args (set a.name (format_value v) ps))
      else assign values (suc i) non_indexed_idx args ps

  abbrev pub finish : Text → Option (Params V) → Decoding V
  finish name none = panicked
  finish name (some ps) = decoded (record { name = name; params = ps })

  -- behind `UnpackValues`
  abbrev pub unpacked :
      AbiEvent Address Hash V → Params V → Option (List (Value Address Hash V)) → Decoding V
  unpacked event ps none = unpack_failed
  unpacked event ps (some values) = finish event.name (assign values 0 0 event.inputs ps)

  -- behind `EventByID`
  abbrev pub decode_event : List Hash → List ℕ → Option (AbiEvent Address Hash V) → Decoding V
  decode_event topics data' none = unknown_event
  decode_event topics data' (some event) =
      let ps = decode_topics (indexed_of event.inputs) topics (λ key. none) in
      if not (is_empty (non_indexed_of event.inputs)) && not (is_empty data')
      then unpacked event ps (event.unpack_values data')
      else decoded (record { name = event.name; params = ps })

  abbrev pub decode_with :
      Hash → List Hash → List ℕ → Option (Hash → Option (AbiEvent Address Hash V)) → Decoding V
  decode_with t topics data' none = no_abi
  decode_with t topics data' (some event_by_id) = decode_event topics data' (event_by_id t)

  abbrev pub decode_topics_of : Decoder Address Hash V → Address → List ℕ → List Hash → Decoding V
  decode_topics_of d a data' [] = no_topics
  decode_topics_of d a data' (t ∷ topics) = decode_with t topics data' (d.abis a)

  -- `DecodeLog`
  unfoldable pub decode_log : Decoder Address Hash V → Log Address Hash → Decoding V
  decode_log d log = decode_topics_of d log.address log.data' log.topics
