-- ===== src/Pollers/Texts.antt =====
-- internal/poller/eth/poller.go: the helpers on texts, and what an error of a node is taken for.
use btc_eth_indexer.Prelude.{
  ℕ, zero, suc, ◌+◌, ◌-◌, ◌<◌, Bool, true, false, Bool-cases, ◌&&◌, ◌||◌, ltb, leb, [], ◌∷◌, ◌++◌,
  Text, codes, text_eq, text_eq_iff, length, length-append, drop, take, take-append-drop,
  if◌then◌else◌, ◌≡◌, ◌↔◌, ◌⊎◌, inl, inr, refl, sym, ap, ◌∙◌, subst, append-nil, arith,
}
use btc_eth_indexer.Pollers.Logs.{LogAnswer, rate_limited, range_too_large, broken}

-- a number of places at which a text may begin, one after the other
unfoldable pub scan : ℕ → Text → Text → Bool
scan zero s sub = false
scan (suc n) s sub = text_eq (take (length sub) s) sub || scan n (drop 1 s) sub

-- `containsImpl(s, substr)`: the loop from 0 to `len(s)-len(substr)`
abbrev pub contains_impl : Text → Text → Bool
contains_impl s sub =
    if ltb (length s) (length sub) then false else scan (length s - length sub + 1) s sub

-- `contains(s, substr)`
unfoldable pub contains : Text → Text → Bool
contains s sub =
    leb (length sub) (length s) && (text_eq s sub || (ltb 0 (length s) && contains_impl s sub))

-- `isRateLimitError(err)`, of the text of the error
abbrev pub is_rate_limit_error : Text → Bool
is_rate_limit_error err = contains err (codes "429") || contains err (codes "rate limit")

-- `isRangeTooLargeError(err)`
abbrev pub is_range_too_large_error : Text → Bool
is_range_too_large_error err =
    contains err (codes "query returned more than")
    || contains err (codes "range too large")
    || contains err (codes "block range")

-- what `fetchLogs` makes of an error of `fetchLogsRange`
unfoldable pub answer_of_error {ℓ} : {A : Type ℓ} → Text → LogAnswer A
answer_of_error err =
    if is_rate_limit_error err
    then rate_limited
    else if is_range_too_large_error err
    then range_too_large
    else broken

-- A text that has another in it, with what is before and behind it.
pub data Occurs (sub : Text) : Text → Type 0 where
  at : (before behind : Text) → Occurs sub (before ++ (sub ++ behind))

later_place : (sub s : Text) (c : ℕ) → Occurs sub s → Occurs sub (c ∷ s)
later_place sub _ c (at before behind) = at (c ∷ before) behind

scan-Occurs : (n : ℕ) (s sub : Text) → scan n s sub ≡ true → Occurs sub s
unfolding scan
scan-Occurs zero s sub e = ground arith
scan-Occurs (suc n) s sub e = elim (Bool-cases (text_eq (take (length sub) s) sub)) [
  | inl k ↦
      let same : take (length sub) s ≡ sub =
        ground (arith, text_eq_iff (take (length sub) s) sub) in
      subst (Occurs sub)
        (ap (λ t. t ++ drop (length sub) s) (sym same) ∙ take-append-drop (length sub) s)
        (at [] (drop (length sub) s))
  | inr k ↦ further s (scan-Occurs n (drop 1 s) sub (ground arith))
]
  where
    further : (t : Text) → Occurs sub (drop 1 t) → Occurs sub t
    further [] o = o
    further (c ∷ t) o = later_place sub t c o

take-append : (s t : Text) → take (length s) (s ++ t) ≡ s
take-append [] t = refl
take-append (c ∷ s) t = ap (λ r. c ∷ r) (take-append s t)

Occurs-scan :
    (before sub behind : Text) (n : ℕ)
    → length before < n
    → scan n (before ++ (sub ++ behind)) sub ≡ true
unfolding scan
Occurs-scan before sub behind zero h = ground arith
Occurs-scan [] sub behind (suc n) h =
    let same : text_eq sub sub ≡ true = ground (arith, text_eq_iff sub sub) in
    rw (take-append sub behind, same) refl
Occurs-scan (c ∷ before) sub behind (suc n) h =
    let rest = Occurs-scan before sub behind n (omega arith) in ground (arith, rest)

found_place : (s sub : Text) → contains s sub ≡ true → Occurs sub s
unfolding contains
found_place s sub e = elim (Bool-cases (text_eq s sub)) [
  | inl k ↦
      let same : s ≡ sub = ground (arith, text_eq_iff s sub) in
      subst (Occurs sub) (append-nil sub ∙ sym same) (at [] [])
  | inr k ↦ scan-Occurs (length s - length sub + 1) s sub (ground arith)
]

nothing_at :
    (before sub behind : Text)
    → ltb 0 (length (before ++ (sub ++ behind))) ≡ false
    → contains (before ++ (sub ++ behind)) sub ≡ true
unfolding contains
nothing_at [] [] [] e = refl
nothing_at [] [] (c ∷ behind) e = ground arith
nothing_at [] (c ∷ sub) behind e = ground arith
nothing_at (c ∷ before) sub behind e = ground arith

place_found : (s sub : Text) → Occurs sub s → contains s sub ≡ true
unfolding contains
place_found _ sub (at before behind) =
    let whole = length-append before (sub ++ behind) in
    let part = length-append sub behind in
    let scanned =
      Occurs-scan before sub behind (length (before ++ (sub ++ behind)) - length sub + 1)
        (omega (arith, whole, part)) in
    elim (Bool-cases (ltb 0 (length (before ++ (sub ++ behind))))) [
      | inl k ↦ ground (arith, whole, part, scanned)
      | inr k ↦ nothing_at before sub behind k
    ]

-- A text contains another exactly if the other occurs in it.
pub contains-Occurs : (s sub : Text) → (contains s sub ≡ true) ↔ Occurs sub s
contains-Occurs s sub = (found_place s sub, place_found s sub)

-- An error counts as a limited rate exactly if "429" or "rate limit" occurs in its text, also where
-- the text says that the range of blocks is too large.
pub answer_of_error_lem :
    {A : Type 0} (err : Text)
    → (answer_of_error {A = A} err ≡ rate_limited)
      ↔ (Occurs (codes "429") err ⊎ Occurs (codes "rate limit") err)
unfolding answer_of_error
answer_of_error_lem err =
    grind (arith, contains-Occurs err (codes "429"), contains-Occurs err (codes "rate limit"))
