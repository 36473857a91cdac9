-- ===== src/Lib.antt =====
-- A verification library for the blockchain indexer: the indexer itself (the loop that polls a node,
-- the reorganisation detector and the storage), the parts of the query API in internal/api that the
-- client meets, and the web client in web/src.
--
-- The program indexes Bitcoin and Ethereum into a database, serves the database through an HTTP API
-- with a cache, and shows it in a web client. A page of the client asks the API through lib/api.ts,
-- keeps what `useQuery` returns, and renders elements with links to other pages. The model follows
-- that: a component is a function from its state and its queries to a tree of elements (Html), a
-- handler of an event is a function on its state, a handler of the server is a function on the cache,
-- and a text is the list of its UTF-16 units.
--
-- The indexer polls a node for the blocks behind its checkpoint, lets the detector compare them with
-- the stored chain, and writes them or rolls the stored chain back. The model has the tables of the
-- database as a record; a method of the storage is a function from the tables to the tables and
-- whether it returned an error, made of statements of which each may fail; a poll is a function on the
-- tables and the metrics; and a run is the states that polls at arbitrary moments reach.
--
-- The files, and the code that each is about:
--   Prelude            JavaScript texts, decimal numbers, BigInt, splitting and joining, and Go's
--                      ParseUint; exceptions as the type Try
--   Html, Query        what a component renders, and what `useQuery` hands to it
--   Runtime            doubles, dates, JSON, base64: a record of operations that the views take as a
--                      parameter, since the code only calls them
--   Types              web/src/types/index.ts
--   Pages              the folders of web/src/app as a router, and the template strings of the links
--   Format, Labels,    web/src/lib/format.ts, known-addresses.ts and entity-labels.ts, and
--     Csv              web/src/hooks/use-csv-export.ts
--   Shared             web/src/components/shared, less the search box and what Layout shows
--   AnimatedNumber     web/src/components/ui/animated-number.tsx
--   Search             web/src/components/shared/search-input.tsx: the state of the box, the routing
--                      of a term, the answer of the API, and the interleaving of both
--   AddressList        web/src/features/address/components/address-transaction-list.tsx
--   AddressPage        web/src/app/address, token-list.tsx and address-stats.tsx
--   BlockPage          web/src/app/block and web/src/features/block/components
--   TxPage             web/src/app/tx and tx-detail.tsx
--   StatsPage          web/src/app/stats, and the range that internal/api/query/store.go selects
--   Landing            web/src/app/page.tsx, and of web/src/features/landing/components the recent
--                      blocks, the tables of transactions and the cards
--   Navbar, Layout     web/src/app/layout.tsx, and of web/src/components/shared navbar.tsx, footer.tsx
--                      and theme-toggle.tsx
--   SystemPage         web/src/app/system and web/src/features/system, and health-indicator.tsx
--   Json, Server       internal/api/server/server.go, internal/api/service/service.go,
--                      internal/api/cache/redis.go and internal/api/auth/middleware.go: the routes, the
--                      search, the lookups of a block and of the latest one, and the rate limit
--   Api                web/src/lib/api.ts
--   Reorg              internal/reorg/detector.go
--   Storage            internal/storage/storage.go with pkg/types/types.go and the tables of
--                      internal/storage/migrations. Writing, EventWriting, Rollback and Finalization
--                      have the methods of these names; Statistics and Tokens what a write collects
--                      from its transactions and transfers; the other files hold proofs
--   Coordinator        internal/coordinator/coordinator.go: Coordinator.antt has the poll and the
--                      loop, its children the proofs about the stored chain
--   Pollers            internal/poller/btc/poller.go (`Poll`) and internal/poller/eth/poller.go
--                      (`fetchLogs` in Pollers/Logs, and the kinds of errors in Pollers/Texts), and
--                      internal/poller/eth/decoder.go (Pollers/Decoder)
--   Tests              inputs at which the theorems apply, and runs of the model
--
-- Bounds and fuel. A decimal is printed with fuel n + 1, which is more than its digits. ParseUint
-- refuses what does not fit into 64 bits. The loop of the detector recurs on the height, and its
-- unsigned subtraction wraps around at 2 ^ 64. The loop of a BTC poll has as much fuel as there are
-- heights to fetch, and one turn more; `fetchLogs` has six turns for each block, since at most five
-- retries come before a success, and one more; the arithmetic of both is that of uint64. Heights
-- and counts are natural numbers, as the API only sends such; a difference that is negative in
-- JavaScript is printed with its sign. Lower-casing is that of ASCII, the letters of addresses and
-- of states.
--
-- Not modelled: class names and inline styles; the clipboard, timers and the frames of animations;
-- the drawing of charts; the heat map. In Go: the migrations, the parsing of what a node answers,
-- the pool of pending transactions, the configuration, the SQL queries of the API, and its handlers
-- other than those of search, of one block and of the latest one. Times are left out. For the API
-- the block table and the token query are parameters, for the indexer the database server, whose
-- statements may fail and which reads numbers, and the node; `formatUnits` of ethers and the ABI,
-- the numbers and the addresses of go-ethereum are too. A commit that fails is taken to have
-- changed nothing. At each poll every kind of statement fails or does not, and those of the
-- finalization behind a write apart from those of the write; the reads of blocks of one poll all
-- fail or none does. A cache is any list of entries, without a clock: an entry that has run out is
-- not in the list.
mod Prelude
pub mod Html
pub mod Types
pub mod Pages
pub mod Runtime
pub mod Format
pub mod Labels
pub mod Csv
pub mod Shared
pub mod AnimatedNumber
pub mod AddressList
pub mod Query
pub mod BlockPage
pub mod TxPage
pub mod AddressPage
pub mod StatsPage
pub mod Landing
pub mod Navbar
pub mod Layout
pub mod SystemPage
pub mod Json
pub mod Server
pub mod Api
pub mod Search
pub mod Reorg
pub mod Storage
pub mod Pollers
pub mod Coordinator
mod Tests
