-- ===== src/BlockPage/Paging.antt =====
-- Turning the pages of a block's transactions.
use btc_eth_indexer.Prelude.{
  ℕ, zero, suc, ap, ◌∙◌, false, List, [], ◌∷◌, Option, none, some, Text, is_empty, if◌then◌else◌,
  ◌≡◌, refl, sym, subst,
}
use btc_eth_indexer.Types.{BlockTxs}
use btc_eth_indexer.BlockPage.{Click, first_page, next_page, no_cursor, next_cursor_of, on_click}

-- the cursor behind a sequence of clicks, the last one first, each on the answer for its cursor
unfoldable pub cursor_after : (Option Text → Option BlockTxs) → List Click → Option Text
cursor_after answer [] = none
cursor_after answer (c ∷ clicks) =
    let cursor = cursor_after answer clicks in on_click (answer cursor) c cursor

-- A cursor of the page: none, or a text that is not empty and that an answer named as the next.
data IsFromAnswer (answer : Option Text → Option BlockTxs) : Option Text → Type 0 where
  no_page : IsFromAnswer answer none
  next_of :
      (cursor : Option Text) (s : Text)
      → IsFromAnswer answer cursor
      → next_cursor_of (answer cursor) ≡ some s
      → is_empty s ≡ false
      → IsFromAnswer answer (some s)

next-IsFromAnswer :
    (answer : Option Text → Option BlockTxs) (cursor next : Option Text)
    → next_cursor_of (answer cursor) ≡ next
    → IsFromAnswer answer cursor
    → IsFromAnswer answer (if no_cursor next then cursor else next)
next-IsFromAnswer answer cursor none e h = h
next-IsFromAnswer answer cursor (some []) e h = h
next-IsFromAnswer answer cursor (some (c ∷ s)) e h = next_of cursor (c ∷ s) h e refl

first-IsFromAnswer :
    (answer : Option Text → Option BlockTxs) (cursor : Option Text)
    → IsFromAnswer answer cursor
    → (if no_cursor cursor then cursor else none) ≡ none
first-IsFromAnswer answer none h = refl
first-IsFromAnswer answer (some s) (next_of cursor _ h e f) = rw f refl

-- Whatever is clicked, the page asks for the first page or for a cursor that the answer for an
-- earlier cursor of the same kind gave.
cursor_after-IsFromAnswer :
    (answer : Option Text → Option BlockTxs) (clicks : List Click)
    → IsFromAnswer answer (cursor_after answer clicks)
unfolding cursor_after on_click
cursor_after-IsFromAnswer answer [] = no_page
cursor_after-IsFromAnswer answer (first_page ∷ clicks) =
    subst (IsFromAnswer answer)
      (sym (
        first-IsFromAnswer answer (cursor_after answer clicks)
          (cursor_after-IsFromAnswer answer clicks)))
      no_page
cursor_after-IsFromAnswer answer (next_page ∷ clicks) =
    next-IsFromAnswer answer (cursor_after answer clicks) _ refl
      (cursor_after-IsFromAnswer answer clicks)

-- After any clicks the button of the first page leads back to the first page.
first_page_returns :
    (answer : Option Text → Option BlockTxs) (clicks : List Click)
    → cursor_after answer (first_page ∷ clicks) ≡ none
unfolding cursor_after on_click
first_page_returns answer clicks =
    first-IsFromAnswer answer (cursor_after answer clicks) (cursor_after-IsFromAnswer answer clicks)

-- the cursor of the next page: the one that the answer for this page names, or this one if it names
-- none or the empty text
abbrev pub next_or_same : Option Text → Option Text → Option Text
next_or_same cursor none = cursor
next_or_same cursor (some []) = cursor
next_or_same cursor (some (c ∷ s)) = some (c ∷ s)

-- the pages in order, counted from the first one; the last page follows itself
unfoldable pub page_at : (Option Text → Option BlockTxs) → ℕ → Option Text
page_at answer zero = none
page_at answer (suc n) =
    let cursor = page_at answer n in next_or_same cursor (next_cursor_of (answer cursor))

-- how often the next page was asked for since the last click on the button of the first page
unfoldable pub turns : List Click → ℕ
turns [] = 0
turns (first_page ∷ clicks) = 0
turns (next_page ∷ clicks) = suc (turns clicks)

next_or_same_lem :
    (cursor next : Option Text)
    → (if no_cursor next then cursor else next) ≡ next_or_same cursor next
next_or_same_lem cursor none = refl
next_or_same_lem cursor (some []) = refl
next_or_same_lem cursor (some (c ∷ s)) = refl

-- After any clicks, each on the answer for the cursor of its moment, the page shown is the one as
-- many pages behind the first as the next page was asked for since the last click on the button of
-- the first page, or the last page if there are fewer.
pub cursor_after-page_at :
    (answer : Option Text → Option BlockTxs) (clicks : List Click)
    → cursor_after answer clicks ≡ page_at answer (turns clicks)
unfolding cursor_after page_at turns on_click
cursor_after-page_at answer [] = refl
cursor_after-page_at answer (first_page ∷ clicks) =
    first-IsFromAnswer answer (cursor_after answer clicks) (cursor_after-IsFromAnswer answer clicks)
cursor_after-page_at answer (next_page ∷ clicks) =
    next_or_same_lem (cursor_after answer clicks)
      (next_cursor_of (answer (cursor_after answer clicks)))
    ∙ ap (λ cursor. next_or_same cursor (next_cursor_of (answer cursor)))
        (cursor_after-page_at answer clicks)
