-- ===== src/Csv/RoundTrip.antt =====
-- A reader of the file gets the fields back.
use btc_eth_indexer.Prelude.{
  ℕ, true, List, [], ◌∷◌, Text, show, show-digits, is_digit, all, join_with, split_on,
  split_on-join_with, Lacks, All, All-append, map, ◌≡◌, ◌≢◌, refl, ap, sym, ◌∙◌, arith,
}
use mathlib.Core.List.{map-map}
use btc_eth_indexer.Types.{Transaction}
use btc_eth_indexer.Csv.{or_empty, headers, row_fields, join_fields, csv_content}

-- A field that needs no quotes.
abbrev pub IsPlainField : Text → Type 0
IsPlainField s = Lacks b',' s × Lacks 10 s

-- The texts of a transaction hold no comma and no line feed.
pub record IsPlain (tx : Transaction) : Type 0 where
  pub tx_hash : IsPlainField tx.tx_hash
  pub from_addr : IsPlainField (or_empty tx.from_addr)
  pub to_addr : IsPlainField (or_empty tx.to_addr)
  pub value : IsPlainField tx.value
  pub fee : IsPlainField tx.fee
  pub status : IsPlainField tx.status

digits-IsPlainField : (s : Text) → all is_digit s ≡ true → IsPlainField s
unfolding is_digit
digits-IsPlainField [] h = (tt, tt)
digits-IsPlainField (c ∷ s) h = ground (arith, digits-IsPlainField s)

row_fields-plain : (tx : Transaction) → IsPlain tx → All IsPlainField (row_fields tx)
unfolding row_fields
row_fields-plain tx h = (
  h.tx_hash,
  (
    digits-IsPlainField (show tx.block_height) (show-digits tx.block_height),
    (h.from_addr, (h.to_addr, (h.value, (h.fee, (h.status, tt))))),
  ),
)

Lacks-join_with : (a b : ℕ) (xs : List Text) → a ≢ b → All (Lacks b) xs → Lacks b (join_with a xs)
unfolding join_with
Lacks-join_with a b [] n h = tt
Lacks-join_with a b (x ∷ []) n (h, _) = h
Lacks-join_with a b (x ∷ y ∷ xs) n (h, hs) =
    All-append (λ c. c ≢ b) x (a ∷ join_with a (y ∷ xs)) h (n, Lacks-join_with a b (y ∷ xs) n hs)

-- the fields of a line
abbrev pub IsPlainLine : List Text → Type 0
IsPlainLine fields = All IsPlainField fields × (fields ≢ [])

without_commas : (fs : List Text) → All IsPlainField fs → All (Lacks b',') fs
without_commas [] h = tt
without_commas (f ∷ fs) ((h, _), hs) = (h, without_commas fs hs)

without_feeds : (fs : List Text) → All IsPlainField fs → All (Lacks 10) fs
without_feeds [] h = tt
without_feeds (f ∷ fs) ((_, h), hs) = (h, without_feeds fs hs)

split_lines :
    (xs : List (List Text)) → All IsPlainLine xs → map (split_on b',') (map join_fields xs) ≡ xs
split_lines [] h = refl
split_lines ([] ∷ xs) ((_, n), hs) = absurd (n refl)
split_lines ((f ∷ fs) ∷ xs) ((h, _), hs) =
    cc (split_on-join_with b',' f fs (without_commas (f ∷ fs) h), split_lines xs hs)

lines-Lacks : (xs : List (List Text)) → All IsPlainLine xs → All (Lacks 10) (map join_fields xs)
lines-Lacks [] h = tt
lines-Lacks (fs ∷ xs) ((h, _), hs) =
    (Lacks-join_with b',' 10 fs (omega arith) (without_feeds fs h), lines-Lacks xs hs)

headers-IsPlainLine : IsPlainLine headers
unfolding headers
headers-IsPlainLine = (omega arith, λ e. cc e)

rows-IsPlainLine : (txs : List Transaction) → All IsPlain txs → All IsPlainLine (map row_fields txs)
unfolding row_fields
rows-IsPlainLine [] h = tt
rows-IsPlainLine (tx ∷ txs) (h, hs) = ((row_fields-plain tx h, λ e. cc e), rows-IsPlainLine txs hs)

-- the file, line by line
read_lines :
    (txs : List Transaction)
    → All IsPlainLine (headers ∷ map row_fields txs)
    → split_on 10 (csv_content txs) ≡ map join_fields (headers ∷ map row_fields txs)
unfolding csv_content
read_lines txs plain =
    ap (λ ls. split_on 10 (join_with 10 (join_fields headers ∷ ls)))
      (sym (map-map join_fields row_fields txs))
    ∙ split_on-join_with 10 (join_fields headers) (map join_fields (map row_fields txs))
        (lines-Lacks (headers ∷ map row_fields txs) plain)

-- Splitting the file at its line feeds and each line at its commas gives the headers and then the
-- fields of each transaction, in order, if no text of a transaction holds a comma or a line feed.
pub csv_content_round_trip :
    (txs : List Transaction)
    → All IsPlain txs
    → map (split_on b',') (split_on 10 (csv_content txs)) ≡ headers ∷ map row_fields txs
unfolding csv_content
csv_content_round_trip txs h =
    let lines = headers ∷ map row_fields txs in
    let plain : All IsPlainLine lines = (headers-IsPlainLine, rows-IsPlainLine txs h) in
    ap (map (split_on b',')) (read_lines txs plain) ∙ split_lines lines plain
