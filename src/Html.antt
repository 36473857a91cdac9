-- ===== src/Html.antt =====
-- What the components of web/src render: the tree of elements, texts, links and buttons of a
-- page, with its classes and inline styles left out. A fragment is `◌⊕◌`.
use btc_eth_indexer.Prelude.{
  Bool, true, false, List, [], ◌∷◌, ◌++◌, String, Text, codes, if◌then◌else◌, ◌≡◌, refl, All, map,
}

infixr 60 ◌⊕◌
pub data Html : Type 0 where
  nothing : Html
  text : Text → Html
  -- an icon of lucide-react, or a component of another package, by its name
  icon : String → Html
  -- an element or a styled wrapper of components/ui, by its tag
  elem : String → Html → Html
  -- a `Link` or an `a`, with its `href`
  link : Text → Html → Html
  -- a `button` or a `Button`, and whether it is disabled
  button : Bool → Html → Html
  ◌⊕◌ : Html → Html → Html

-- the text of a literal
abbrev pub say : String → Html
say s = text (codes s)

-- `{cond && view}`
abbrev pub when : Bool → Html → Html
when b v = if b then v else nothing

-- `{xs.map(view)}`
unfoldable pub each {ℓ} : {A : Type ℓ} → (A → Html) → List A → Html
each view [] = nothing
each view (x ∷ xs) = view x ⊕ each view xs

-- what a reader of the page sees, as `textContent` gives it
unfoldable pub text_content : Html → Text
text_content nothing = []
text_content (text s) = s
text_content (icon _) = []
text_content (elem _ v) = text_content v
text_content (link _ v) = text_content v
text_content (button _ v) = text_content v
text_content (v ⊕ w) = text_content v ++ text_content w

-- Every link of the tree goes to an address with the property.
abbrev pub AllLinks {ℓ} : (Text → Type ℓ) → Html → Type ℓ
AllLinks P nothing = Unit
AllLinks P (text _) = Unit
AllLinks P (icon _) = Unit
AllLinks P (elem _ v) = AllLinks P v
AllLinks P (link href v) = P href × AllLinks P v
AllLinks P (button _ v) = AllLinks P v
AllLinks P (v ⊕ w) = AllLinks P v × AllLinks P w

-- the addresses of the links, in document order
unfoldable pub links : Html → List Text
links nothing = []
links (text _) = []
links (icon _) = []
links (elem _ v) = links v
links (link href v) = href ∷ links v
links (button _ v) = links v
links (v ⊕ w) = links v ++ links w

module _ {ℓ} (P : Text → Type ℓ) where
  pub AllLinks-when : (b : Bool) (v : Html) → AllLinks P v → AllLinks P (when b v)
  AllLinks-when true v h = h
  AllLinks-when false v h = tt

  pub AllLinks-if :
      (b : Bool) (v w : Html) → AllLinks P v → AllLinks P w → AllLinks P (if b then v else w)
  AllLinks-if true v w h k = h
  AllLinks-if false v w h k = k

  pub AllLinks-each {κ μ} :
      {A : Type κ} (Q : A → Type μ) (view : A → Html) (xs : List A)
      → ((x : A) → Q x → AllLinks P (view x))
      → All Q xs
      → AllLinks P (each view xs)
  unfolding each
  AllLinks-each Q view [] f h = tt
  AllLinks-each Q view (x ∷ xs) f (q, h) = (f x q, AllLinks-each Q view xs f h)

-- One link for each element, in order.
pub links-each {κ} :
    {A : Type κ} (href : A → Text) (view : A → Html) (xs : List A)
    → ((x : A) → links (view x) ≡ href x ∷ [])
    → links (each view xs) ≡ map href xs
unfolding each links
links-each href view [] f = refl
links-each href view (x ∷ xs) f = rw (f x, links-each href view xs f)
