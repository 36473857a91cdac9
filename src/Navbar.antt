-- ===== src/Navbar.antt =====
-- web/src/components/shared/navbar.tsx: the navigation bar of every page.
use btc_eth_indexer.Prelude.{Bool, false, not, codes, if◌then◌else◌}
use btc_eth_indexer.Types.{Chain}
use btc_eth_indexer.Html.{Html, nothing, icon, elem, link, button, ◌⊕◌, say, when}

-- the state hooks of `Navbar`
pub record Navbar : Type 0 where
  pub mobile_menu_open : Bool
  pub chain : Chain

-- What a user does to the bar.
pub data Action : Type 0 where
  choose : Chain → Action
  toggle_menu follow_link : Action

-- the handlers; a link of the mobile menu closes the menu
unfoldable pub on_action : Action → Navbar → Navbar
on_action (choose c) s = record s { chain = c }
on_action toggle_menu s = record s { mobile_menu_open = not s.mobile_menu_open }
on_action follow_link s = record s { mobile_menu_open = false }

-- the search box, for the chain that is chosen
abbrev search_input : Chain → Html
search_input chain = elem "SearchInput" nothing

abbrev logo : Html
logo =
    link (codes "/")
      (icon "Terminal" ⊕ elem "div" (elem "span" (say "ChainScope") ⊕ elem "span" (say "v2.0")))

abbrev desktop_links : Html
desktop_links = elem "nav" (
    link (codes "/") (say "Dashboard")
    ⊕ link (codes "/stats/btc") (elem "span" nothing ⊕ say "Bitcoin")
    ⊕ link (codes "/stats/eth") (elem "span" nothing ⊕ say "Ethereum"))

abbrev mobile_menu : Navbar → Html
mobile_menu s = elem "div" (
    search_input s.chain
    ⊕ elem "div" (button false (say "Bitcoin") ⊕ button false (say "Ethereum"))
    ⊕ elem "nav" (
        link (codes "/") (say "Dashboard")
        ⊕ link (codes "/stats/btc") (elem "span" nothing ⊕ say "Bitcoin Stats")
        ⊕ link (codes "/stats/eth") (elem "span" nothing ⊕ say "Ethereum Stats")
        ⊕ link (codes "/system") (say "System Health")))

-- `Navbar`
unfoldable pub navbar : Navbar → Html
navbar s = elem "header" (
    logo
    ⊕ desktop_links
    ⊕ elem "div" (
        search_input s.chain
        ⊕ elem "div" (button false (say "BTC") ⊕ button false (say "ETH"))
        ⊕ icon "ThemeToggle"
        ⊕ button false (if s.mobile_menu_open then icon "X" else icon "Menu"))
    ⊕ when s.mobile_menu_open (mobile_menu s))
