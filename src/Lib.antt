-- ===== src/Lib.antt =====
-- A verification library for the market-making engine: fixed-point arithmetic, the local order
-- book and its synchronization with a venue, position accounting, the state machines of orders
-- and sessions, order validation, the quote manager, the pre-trade risk engine, the matcher of
-- the simulated venue and the reconnect backoff, translated from the C++ sources as functions on
-- records, with the theorems listed below.
--
-- Common models include/mm/common: a Fixed value is its raw 64-bit integer, with the checked
-- operations as Option results and the unchecked ones wrapping; 128-bit intermediates are exact
-- integers. A Status is its code.
--
-- OrderBook models include/mm/orderbook/OrderBook.hpp and src/orderbook/OrderBook.cpp: a record
-- of the two sides, the staged snapshot and the flags; Levels holds one side as a list, best
-- level first, Queries the accessors and the audit. Order and Refinement relate the search-based
-- update to a one-pass insertion, Sides, Invariant and Preservation carry the invariant through
-- each operation, History through any sequence of them; Lookup and Message are about what a book
-- answers for a price, Audit about its audit.
--
-- Portfolio models include/mm/portfolio and src/portfolio: Account is PositionAccount, SeenTrades
-- its ring of trade ids, Model the accounting model of its header comment in exact arithmetic,
-- and Fill, Effect and Exact relate the two.
--
-- Oms models the lifecycle of include/mm/oms/OrderTypes.hpp and src/oms/OrderTypes.cpp, Session
-- the session states of src/exchange/common/ExchangeTypes.cpp. Paths in each is reachability
-- under the legal transitions.
--
-- BookSync models src/orderbook/BookSynchronizer.cpp on top of OrderBook and Session: State is
-- the record, BookSync the steps of a synchronization, Handlers the public calls, each taking the
-- time as an argument. Invariant, Sync and Live hold the invariant of a synchronizer and its
-- lemmas, Quotable histories of calls, Chain the chains of updates that lead from one book to
-- another, and Continuity what is applied.
--
-- Portfolio/Accountant models src/portfolio/PortfolioAccountant.cpp, the ledger of all symbols,
-- on top of Account: the calls and recovery there, the aggregation in Totals. Added and Sums
-- relate the totals to exact sums over the accounts, Ledger follows a fault through later calls,
-- Recovery saving and restoring.
--
-- Venue models src/exchange/common/OrderRequest.cpp with the instrument rules of
-- include/mm/common/Types.hpp (Common/Instrument), Quote the quote manager of
-- src/quote/QuoteManager.cpp, which turns a strategy's intent into the actions that Risk judges:
-- Working what rests and what is wanted, State the records, Manager screening and comparison,
-- Slot the resolution of one slot, Evaluate the calls. Base, Ownership, Resolve, Proper and
-- Generations hold the proofs.
--
-- Risk models include/mm/risk and src/risk, and reads the book's quote, the ledger's view and the
-- validators of Venue: Types and Limits the states, reasons and limits, Exposure the snapshots
-- and the worst case, RateLimiter the token bucket, Decision the records, Checks the screening
-- and the bounds of RiskEngine.cpp, Engine its calls. A decision takes the readings of the clock
-- as an argument. Sizing, Bounds, Outcomes, Safety and Armed lead from the checks to what an
-- approved quantity is measured against; Histories, Tokens, Tally, Search and Unavailable hold
-- the other theorems. IEEE doubles, in the rate limiters and the distance from the mid price, are
-- the parameter Doubles of Common, of which no law is assumed.
--
-- Backoff models include/mm/exchange/common/ReconnectBackoff.hpp; its loop recurses on the number
-- of attempts.
--
-- Paper models the order record and the matcher of the simulated venue,
-- src/exchange/paper/PaperMatcher.cpp; the loop over the levels is a walk that carries the locals
-- of the source.
--
-- The search for the largest permitted quantity runs on fuel 64: the number of lots is below 2^63
-- and each round at least halves the interval. All other loops run over lists or a count and need
-- no fuel. Not modelled: the message texts of a Status, memory reservation, logging, doubles, and
-- the components that the manifest lists as not modelled.
pub mod Prelude
pub mod Common
pub mod OrderBook
pub mod Portfolio
pub mod Oms
pub mod Session
pub mod BookSync
pub mod Venue
pub mod Quote
pub mod Risk
pub mod Paper
pub mod Backoff
