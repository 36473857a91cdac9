-- ===== src/Search/Progress.antt =====
-- The search box over time: the user types and submits, and answers to earlier submissions come
-- back in any order, since nothing in the code stops a second search while one waits.
use btc_eth_indexer.Prelude.{
  false, List, [], ◌∷◌, ◌++◌, Option, none, some, Text, is_empty, trim, Try, ◌≡◌, ◌≢◌, refl, ap,
  ◌∙◌, Bool-cases, inl, inr, ◌⊎◌,
}
use btc_eth_indexer.Types.{Chain}
use btc_eth_indexer.Json.{Json}
use btc_eth_indexer.Search.Answers.{finish_idle}
use btc_eth_indexer.Search.{
  SearchInput, Submission, ignored, routed, asked, conclude, on_change, handle_search, submit_term,
  smart_route, verdict, push, finish,
}

-- the box, the terms that wait for an answer, and the routes pushed so far, the latest first
pub record Session : Type 0 where
  pub box : SearchInput
  pub waiting : List Text
  pub pushed : List Text

abbrev pub opened : Session
opened = record {
  box = record { search = []; is_searching = false; error = none };
  waiting = [];
  pushed = [];
}

abbrev submitted : Session → SearchInput × Submission → Session
submitted w (box, ignored) = record w { box = box }
submitted w (box, routed route) = record w { box = box; pushed = route ∷ w.pushed }
submitted w (box, asked term) = record w { box = box; waiting = term ∷ w.waiting }

abbrev answered : Session → List Text → SearchInput × Option Text → Session
answered w rest (box, none) = record { box = box; waiting = rest; pushed = w.pushed }
answered w rest (box, some route) = record { box = box; waiting = rest; pushed = route ∷ w.pushed }

pub data Step (chain : Chain) : Session → Session → Type 0 where
  change : (w : Session) (value : Text) → Step chain w (record w { box = on_change value w.box })
  submit : (w : Session) → Step chain w (submitted w (handle_search chain w.box))
  -- the answer to one of the waiting terms, or the failure of its request
  answer :
      (w : Session) (newer older : List Text) (term : Text) (res : Try Json)
      → w.waiting ≡ newer ++ (term ∷ older)
      → Step chain w (answered w (newer ++ older) (finish chain term res w.box))

pub data Reach (chain : Chain) (w : Session) : Session → Type 0 where
  here : Reach chain w w
  next : {u v : Session} → Reach chain w u → Step chain u v → Reach chain w v

-- A spinner turns only while an answer is awaited.
abbrev pub SpinsForReason : Session → Type 0
SpinsForReason w = (w.box.is_searching ≡ false) ⊎ (w.waiting ≢ [])

submit_term-SpinsForReason :
    (w : Session) (route : Option Text) (term : Text) (quiet : SearchInput)
    → SpinsForReason (submitted w (submit_term route term quiet))
submit_term-SpinsForReason w (some route) term quiet = inl refl
submit_term-SpinsForReason w none term quiet = inr (λ e. cc e)

submit-SpinsForReason :
    (chain : Chain) (w : Session)
    → SpinsForReason w
    → SpinsForReason (submitted w (handle_search chain w.box))
unfolding handle_search
submit-SpinsForReason chain w h = elim (Bool-cases (is_empty (trim w.box.search))) [
  | inl blank ↦ rw blank h
  | inr filled ↦
      rw filled (submit_term-SpinsForReason w (smart_route chain (trim w.box.search)) _ _)
]

box-answered :
    (w : Session) (rest : List Text) (r : SearchInput × Option Text) → (answered w rest r).box ≡ r.0
box-answered w rest (box, none) = refl
box-answered w rest (box, some route) = refl

answer-SpinsForReason :
    (chain : Chain) (w : Session) (rest : List Text) (term : Text) (res : Try Json)
    → SpinsForReason (answered w rest (finish chain term res w.box))
answer-SpinsForReason chain w rest term res =
    let idle = finish_idle chain term res w.box in
    let same = box-answered w rest (finish chain term res w.box) in
    inl (ap (λ (b : SearchInput). b.is_searching) same ∙ idle)

Step-SpinsForReason :
    {chain : Chain} {v w : Session} → Step chain v w → SpinsForReason v → SpinsForReason w
unfolding on_change
Step-SpinsForReason (change w value) h = h
Step-SpinsForReason {chain} (submit w) h = submit-SpinsForReason chain w h
Step-SpinsForReason {chain} (answer w newer older term res e) h =
    answer-SpinsForReason chain w (newer ++ older) term res

-- In every session that begins with the page, whatever is typed, submitted and answered in
-- whatever order, the spinner turns only while an answer is awaited.
pub Reach-SpinsForReason : (chain : Chain) {w : Session} → Reach chain opened w → SpinsForReason w
Reach-SpinsForReason chain here = inl refl
Reach-SpinsForReason chain (next r st) = Step-SpinsForReason st (Reach-SpinsForReason chain r)

route-finish :
    (chain : Chain) (term : Text) (res : Try Json) (s : SearchInput) (route : Text)
    → verdict chain term res ≡ push route
    → (finish chain term res s).1 ≡ some route
unfolding finish conclude
route-finish chain term res s route e = rw e refl

pushed-answered :
    (w : Session) (rest : List Text) (r : SearchInput × Option Text) (route : Text)
    → r.1 ≡ some route
    → ((answered w rest r).pushed ≡ route ∷ w.pushed) × ((answered w rest r).waiting ≡ rest)
pushed-answered w rest (box, none) route e = absurd (cc e)
pushed-answered w rest (box, some r) route e = (cc, refl)

-- An answer is not checked against the latest search: of two waiting searches whose answers lead to
-- routes, the one submitted first can be answered last, and its route is then the one shown.
pub stale_answer_wins :
    (chain : Chain) (w : Session) (first second : Text) (rest : List Text) (res res' : Try Json)
    (route route' : Text)
    → w.waiting ≡ second ∷ first ∷ rest
    → verdict chain first res ≡ push route
    → verdict chain second res' ≡ push route'
    → (v : Session) × Reach chain w v × (v.pushed ≡ route ∷ route' ∷ w.pushed)
stale_answer_wins chain w first second rest res res' route route' e p q =
    let r = finish chain second res' w.box in
    let u = answered w (first ∷ rest) r in
    let u_is =
      pushed-answered w (first ∷ rest) r route' (route-finish chain second res' w.box route' q) in
    let r' = finish chain first res u.box in
    let v = answered u rest r' in
    let v_is = pushed-answered u rest r' route (route-finish chain first res u.box route p) in
    (
      v,
      next (next here (answer w [] (first ∷ rest) second res' e))
          (answer u [] rest first res u_is.1),
      v_is.0 ∙ ap (λ (l : List Text). route ∷ l) u_is.0,
    )
