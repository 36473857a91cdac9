-- ===== src/Layout.antt =====
-- web/src/app/layout.tsx with web/src/components/shared/footer.tsx and theme-toggle.tsx: what
-- stands around every page.
use btc_eth_indexer.Prelude.{
  ℕ, Bool, true, false, not, ◌++◌, Option, none, some, Text, codes, show, text_eq, if◌then◌else◌,
  String, ◌≡◌, refl, ◌⊎◌, inl, inr,
}
use btc_eth_indexer.Html.{Html, text, icon, elem, link, button, ◌⊕◌, say, AllLinks}
use btc_eth_indexer.Pages.{page_of, IsLive, home, system, stats}
use btc_eth_indexer.Navbar.{Navbar, navbar}
use btc_eth_indexer.Types.{Chain}

-- the state of `ThemeToggle`, with what `useTheme` of next-themes gives
pub record ThemeState : Type 0 where
  pub mounted : Bool
  pub theme : Option Text

-- `theme === "dark"`
abbrev is_dark : Option Text → Bool
is_dark none = false
is_dark (some t) = text_eq t (codes "dark")

-- a click; before the component is mounted its button has no handler
unfoldable toggle_theme : ThemeState → ThemeState
toggle_theme s =
    if s.mounted
    then record s { theme = some (codes (if is_dark s.theme then "light" else "dark")) }
    else s

-- `ThemeToggle`
unfoldable theme_toggle : ThemeState → Html
theme_toggle s =
    if not s.mounted
    then button false (elem "span" (say "Toggle theme"))
    else button false (if is_dark s.theme then icon "Sun" else icon "Moon")

-- an entry of a list of the footer
abbrev footer_item : String → String → Html
footer_item href label = elem "li" (link (codes href) (say label))

-- `Footer`, in a year
unfoldable footer : ℕ → Html
footer year = elem "footer" (
    elem "div" (
      link (codes "/") (icon "Terminal" ⊕ elem "span" (say "ChainScope"))
      ⊕ elem "p" (say "Next-generation blockchain analytics for Bitcoin and Ethereum.")
      ⊕ elem "div" (link (codes "#") (icon "Github") ⊕ link (codes "#") (icon "Twitter")))
    ⊕ elem "div" (
        elem "h3" (say "Explore")
        ⊕ elem "ul" (
            footer_item "/stats/btc" "Bitcoin"
            ⊕ footer_item "/stats/eth" "Ethereum"
            ⊕ footer_item "/system" "System Health"))
    ⊕ elem "div" (
        elem "h3" (say "Resources")
        ⊕ elem "ul" (footer_item "#" "API Docs" ⊕ footer_item "#" "Status"))
    ⊕ elem "div"
        (elem "h3" (say "Legal") ⊕ elem "ul" (footer_item "#" "Privacy" ⊕ footer_item "#" "Terms"))
    ⊕ elem "div" (
        elem "span" (text (codes "© " ++ show year ++ codes " ChainScope. All rights reserved."))
        ⊕ elem "span" (say "v2.0")))

-- `RootLayout`
unfoldable root_layout : Navbar → ℕ → Html → Html
root_layout s year children =
    elem "html" (elem "body" (elem "div" (navbar s ⊕ elem "main" children ⊕ footer year)))

-- A link leads to a page of the site, or nowhere.
abbrev IsSettled : Text → Type 0
IsSettled href = IsLive href ⊎ (href ≡ codes "#")

home-IsSettled : IsSettled (codes "/")
unfolding page_of
home-IsSettled = inl (home, refl)

system-IsSettled : IsSettled (codes "/system")
unfolding page_of
system-IsSettled = inl (system, refl)

btc-IsSettled : IsSettled (codes "/stats/btc")
unfolding page_of
btc-IsSettled = inl (stats (codes "btc"), refl)

eth-IsSettled : IsSettled (codes "/stats/eth")
unfolding page_of
eth-IsSettled = inl (stats (codes "eth"), refl)

nowhere : IsSettled (codes "#")
nowhere = inr refl

footer-IsSettled : (year : ℕ) → AllLinks IsSettled (footer year)
unfolding footer
footer-IsSettled year =
    search (home-IsSettled, system-IsSettled, btc-IsSettled, eth-IsSettled, nowhere)

-- The links of the bar lead to pages, also those of its open menu.
navbar-IsSettled :
    (is_open : Bool) (c : Chain)
    → AllLinks IsSettled (navbar (record { mobile_menu_open = is_open; chain = c }))
unfolding navbar
navbar-IsSettled true c = search (home-IsSettled, system-IsSettled, btc-IsSettled, eth-IsSettled)
navbar-IsSettled false c = search (home-IsSettled, btc-IsSettled, eth-IsSettled)

-- If each link of a page leads to a page or nowhere, so does each link of the page in its layout.
root_layout-IsSettled :
    (s : Navbar) (year : ℕ) (children : Html)
    → AllLinks IsSettled children
    → AllLinks IsSettled (root_layout s year children)
unfolding root_layout
root_layout-IsSettled s year children inside =
    (navbar-IsSettled s.mobile_menu_open s.chain, (inside, footer-IsSettled year))

-- Two clicks on a dark or a light theme give it back.
toggle_theme_twice :
    (m : Bool)
    → toggle_theme (toggle_theme (record { mounted = m; theme = some (codes "dark") }))
      ≡ record { mounted = m; theme = some (codes "dark") }
unfolding toggle_theme
toggle_theme_twice true = refl
toggle_theme_twice false = refl
