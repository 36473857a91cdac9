-- ===== src/Pollers/Panic.antt =====
-- internal/poller/eth/decoder.go: the index that `DecodeLog` reads the unpacked values with.
use btc_eth_indexer.Prelude.{
  ℕ, zero, suc, ◌+◌, ◌≤◌, ◌<◌, Bool-cases, inl, inr, true, false, not, List, [], ◌∷◌, ◌++◌, Option,
  none, some, length, is_empty, ◌≡◌, refl, sym, ap, ◌∙◌, filter-append, length-append, arith,
}
use btc_eth_indexer.Pollers.Decoder.{
  Argument, Geth, Value, AbiEvent, Decoder, Log, Params, panicked, get_elem?, non_indexed_of,
  with_value, assign, set, format_value, finish, decode_log, decode_topics, indexed_of,
}

get_elem?_bound :
    {A : Type 0} (xs : List A) (i : ℕ) (x : A) → get_elem? xs i ≡ some x → i < length xs
unfolding get_elem?
get_elem?_bound [] i x e = ground arith
get_elem?_bound (y ∷ xs) zero x e = ground arith
get_elem?_bound (y ∷ xs) (suc i) x e = omega (arith, get_elem?_bound xs i x e)

count_indexed :
    (a : Argument) (args : List Argument)
    → a.indexed ≡ true
    → length (non_indexed_of (a ∷ args)) ≡ length (non_indexed_of args)
count_indexed a args e = ground arith

count_next :
    (a : Argument) (args : List Argument)
    → a.indexed ≡ false
    → length (non_indexed_of (a ∷ args)) ≡ suc (length (non_indexed_of args))
count_next a args e = ground arith

module _ {Address Hash V : Type 0} (geth : Geth Address Hash)
    (values : List (Value Address Hash V)) where
  assign_indexed :
      (a : Argument) (args : List Argument) (i k : ℕ) (ps : Params V)
      → a.indexed ≡ true
      → assign geth values i k (a ∷ args) ps ≡ assign geth values (suc i) k args ps
  unfolding assign
  assign_indexed a args i k ps e = ground arith

  assign_next :
      (a : Argument) (args : List Argument) (i k : ℕ) (ps : Params V)
      → a.indexed ≡ false
      → k < length values
      → assign geth values i k (a ∷ args) ps
        ≡ with_value geth
            (get_elem? values i)
            (λ v. assign geth values (suc i) (suc k) args (set a.name (format_value geth v) ps))
  unfolding assign
  assign_next a args i k ps e h = ground arith

  -- A value is read only if the index is in range, and then the loop goes on with it.
  with_value-none :
      (o : Option (Value Address Hash V)) (k : Value Address Hash V → Option (Params V))
      → ((v : Value Address Hash V) → o ≡ some v → k v ≡ none)
      → with_value geth o k ≡ none
  with_value-none none k h = refl
  with_value-none (some v) k h = h v refl

  -- Behind an indexed argument the index is ahead of the values, and the last one is missed.
  assign-behind :
      (args : List Argument) (i k : ℕ) (ps : Params V)
      → k < i
      → k + length (non_indexed_of args) ≡ length values
      → 0 < length (non_indexed_of args)
      → assign geth values i k args ps ≡ none
  assign-behind [] i k ps h e pos = ground arith
  assign-behind (a ∷ args) i k ps h e pos = elim (Bool-cases a.indexed) [
    | inl r ↦
        assign_indexed a args i k ps r
        ∙ assign-behind args (suc i) k ps (omega arith) (omega (arith, count_indexed a args r))
            (omega (arith, count_indexed a args r))
    | inr r ↦
        assign_next a args i k ps r (omega arith)
        ∙ with_value-none (get_elem? values i) _ (λ v found.
          assign-behind args (suc i) (suc k) _ (omega arith) (omega (arith, count_next a args r))
            (omega (arith, count_next a args r, get_elem?_bound values i v found)))
  ]

  -- The same from an index on that may be up with the values.
  assign-panics :
      (before : List Argument) (x : Argument) (behind : List Argument) (i k : ℕ) (ps : Params V)
      → k ≤ i
      → k + length (non_indexed_of (before ++ (x ∷ behind))) ≡ length values
      → x.indexed ≡ true
      → 0 < length (non_indexed_of behind)
      → assign geth values i k (before ++ (x ∷ behind)) ps ≡ none
  assign-panics [] x behind i k ps h e r pos =
      assign_indexed x behind i k ps r
      ∙ assign-behind behind (suc i) k ps (omega arith) (omega (arith, count_indexed x behind r))
          pos
  assign-panics (a ∷ before) x behind i k ps h e r pos = elim (Bool-cases a.indexed) [
    | inl q ↦
        assign_indexed a _ i k ps q
        ∙ assign-panics before x behind (suc i) k ps (omega arith)
            (omega (arith, count_indexed a (before ++ (x ∷ behind)) q)) r pos
    | inr q ↦
        assign_next a _ i k ps q (omega (arith, count_next a (before ++ (x ∷ behind)) q))
        ∙ with_value-none (get_elem? values i) _ (λ v found.
          assign-panics before x behind (suc i) (suc k) _ (omega arith)
            (omega (arith, count_next a (before ++ (x ∷ behind)) q)) r pos)
  ]

is_empty-long : {A : Type 0} (xs : List A) → 0 < length xs → is_empty xs ≡ false
is_empty-long [] h = ground arith
is_empty-long (x ∷ xs) h = refl

count_behind :
    (before : List Argument) (x : Argument) (behind : List Argument)
    → x.indexed ≡ true
    → length (non_indexed_of behind) ≤ length (non_indexed_of (before ++ (x ∷ behind)))
count_behind before x behind r = omega (
  arith,
  ap length (filter-append (λ a. not a.indexed) before (x ∷ behind)),
  length-append (non_indexed_of before) (non_indexed_of (x ∷ behind)),
  count_indexed x behind r,
)

-- If the log has data, the ABI of its contract knows its event, and unpacking the data gives a
-- value for each argument that is not indexed, then an event in which an indexed argument stands
-- before one that is not makes `DecodeLog` read outside of the values, and panic.
pub decode_log-panics :
    {Address Hash V : Type 0} (geth : Geth Address Hash) (d : Decoder Address Hash V)
    (log : Log Address Hash) (topic : Hash) (topics : List Hash)
    (abi : Hash → Option (AbiEvent Address Hash V)) (event : AbiEvent Address Hash V)
    (values : List (Value Address Hash V)) (before : List Argument) (x : Argument)
    (behind : List Argument)
    → log.topics ≡ topic ∷ topics
    → is_empty log.data' ≡ false
    → d.abis log.address ≡ some abi
    → abi topic ≡ some event
    → event.unpack_values log.data' ≡ some values
    → event.inputs ≡ before ++ (x ∷ behind)
    → length values ≡ length (non_indexed_of event.inputs)
    → x.indexed ≡ true
    → 0 < length (non_indexed_of behind)
    → decode_log geth d log ≡ panicked
unfolding decode_log
decode_log-panics geth d log topic topics abi event values before x behind e0 some_data e1 e2 e3 e4
      e5 r pos =
    let count : length (non_indexed_of (before ++ (x ∷ behind))) ≡ length values =
      sym (e5 ∙ ap (λ l. length (non_indexed_of l)) e4) in
    let some_args : is_empty (non_indexed_of event.inputs) ≡ false =
      is_empty-long (non_indexed_of event.inputs)
        (omega (arith, e5, count, count_behind before x behind r)) in
    rw (e0, e1, e2, some_args, some_data, e3)
      (ap (finish geth event.name) (
        ap
          (λ l.
            assign geth values 0 0 l
              (decode_topics geth (indexed_of event.inputs) topics (λ key. none)))
          e4
        ∙ assign-panics geth values before x behind 0 0 _ (omega arith) (omega (arith, count)) r
            pos))
