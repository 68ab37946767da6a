-- ===== src/Lib.antt =====
-- QuantumSentinel Web: a paper-trading and research application. This library models the parts of
-- its backend that hold money, orders, jobs and security state, as functions on explicit state.
--
-- The paper broker (backend/services/paper_broker.py and trading_service.py, portfolio_service.py, and the
-- order routes of main.py): a user's order reserves its worst-case cash, is filled or rests, and is
-- swept against market prices until it is filled, cancelled or expired.
--   Money      to_micros, notional_micros, reservation_micros; decimals without a sign.
--   Money.Float  doubles: from_micros, and what the rebuild of the positions and the risk gate compute.
--   Trading    simulate_fill, check_pending_limit_fill, stop_triggered, at a given last price.
--   Quotes     the cache of market prices, _quote to get_mark_price; the provider's answers are arguments.
--   Ledger     the tables, transactions (commit and rollback), get_or_create_account, try_reserve.
--   Broker     _cas_status, close_order, accept_order, fill_order.
--   Positions  held_quantity, rebuild_positions.   Exposure  open_order_exposure.
--   Orders     place_order from the reservation on, cancel_order.   Sweep  process_open_orders.
--   History    any sequence of these operations, in the order in which their transactions commit.
-- A session has the committed tables and its working copy; a rollback returns to the first.
--
-- The research job queue (backend/services/research_jobs.py): the API enqueues and cancels, workers claim
-- under a lease, renew, and finish; expired leases are reaped.
--   Jobs   the API's side.   Lease  the workers' side, and Lease.Histories any sequence of both.
-- An operation that reads and then writes takes what others commit in between as an argument. claim_next
-- tries a fixed number of rounds in the source, which is the length of that argument's list.
--
-- Order authorisation (backend/services/order_security.py, redis_store.py):
--   Security       validate_envelope, verify_or_attest, the idempotency keys.
--   Security.Risk  kill switches, assert_risk_gate and its asynchronous form.
--   Store          the in-memory store: set_nx_ex and the operations on keys and switches.
-- What Redis answers, and the verification of signatures, are arguments. Reserving a key is repeated while
-- another request commits the same key in between; the list of what is committed bounds the rounds, and
-- the last round, in which nothing is, always decides.
--
-- The simulated exchange (backend/services/order_book.py, matching_engine.py):
--   Book         orders, fills and level queues; orders live in a store, and levels and index hold addresses.
--   Book.Levels  the levels, add_order, cancel_order, _prune.   Book.Match  consume_liquidity.
--   Book.Queues  positions in a level's queue.   Book.Histories  any sequence of the book's operations.
--   Book.Feed, Book.Print  the events of the market-data feed, and the trades that it prints.
--   Engine       submit_order, cancel_order and the execution of orders.   Engine.Stops  stops and expiry.
--   Engine.Feed  on_market_event.
--   Exchange     a session of the paper exchange (paper_exchange.py): Exchange.Position a position,
--                Exchange.Session the pre-trade checks, orders in flight, the clock and settlement.
-- Prices and quantities are whole numbers of a unit; a quantity of one unit is the source's 1e-9.
-- What a proportional decrease of a level leaves of an order is an argument, and so is the unit in which
-- the clock and the cash are compared. advance_to runs on fuel for as many rounds as there are orders in
-- flight, which is enough since no activation puts one in flight.
--
-- Accounts (backend/services/auth_service.py):
--   Auth.Limiter       failed logins and lockouts; Auth.Limiter.Promise what they promise.
--   Auth.Tokens        refresh tokens, their rotation and the revocations.
--   Auth.AccessTokens  the cache of verified access tokens.   Auth.Sessions  nonces and handshake sessions.
-- Raw tokens, ids and clock readings that a request draws are its arguments, jwt.decode is one too.
--
-- The audit chain (backend/services/security_service.py):
--   Audit  the appender and _insert_chain_links.   Audit.Check  audit_chain_status and _link_failure.
--   Audit.Runs, Audit.Written, Audit.Tamper, Audit.Parts  what is proved of them, by subject.
-- SHA-256, ML-DSA and the renderings of an instant are arguments.
--
-- Research experiments (backend/services/experiment_registry.py):
--   Experiments  manifests, their signatures and the gates.   Experiments.Registry  the operations.
-- Figures of a result are whole millionths. complete locks no row, and is modelled as one step; nothing of
-- the backend's routes calls it.
--
-- Research trials (backend/services/research_trials.py):
--   Trials  the record of a family's configurations and their count; a record tries as often as its list
--   of what others commit is long, three times in the source.
--
-- Prelude has tables as lists of rows with SQL's statements on them. Checks has concrete inputs.
-- Not modelled: market data, research numerics, cryptography, password hashing and CSRF tokens, the
-- server identity and its rotation, the dataset registry, integrations, reports, output.
pub mod Prelude
pub mod Money
pub mod Trading
pub mod Quotes
pub mod Ledger
pub mod Positions
pub mod Broker
pub mod Orders
pub mod Sweep
pub mod Exposure
pub mod History
pub mod Jobs
pub mod Lease
pub mod Store
pub mod Security
pub mod Book
pub mod Engine
pub mod Auth
pub mod Audit
pub mod Exchange
pub mod Experiments
pub mod Trials
pub mod Checks
