-- ===== src/Exchange.antt =====
-- The paper exchange (backend/services/paper_exchange.py) over the matching engine, on one simulation
-- clock. Cash, prices and quantities are whole numbers of a unit, cash may be negative; averages and
-- profits are exact fractions. The mid prices that analytics records are not kept.
pub mod Position
pub mod Session
use quantumsentinel_web.Prelude.{
  ℕ, zero, suc, ◌+◌, ◌-◌, ◌*◌, min, max, Bool, true, false, not, ◌&&◌, ◌||◌, ltb, leb, ◌==◌,
  if◌then◌else◌, Option, none, some, List, [], ◌∷◌, ◌++◌, sum_by, first_where, select_where,
  update_where, order_by, update_first, length,
}
use quantumsentinel_web.Prelude.Int.{ℤ, pos, negsuc, ◌+ℤ◌, ◌-ℤ◌}
use quantumsentinel_web.Book.{
  TradeSide, buy, sell, OrderType, market, limit, OrderStatus, submitted, accepted, queued,
  partially_filled, cancelled, rejected, filled, expired, TimeInForce, Owner, paper, is_feed, Order,
  eps, remaining_quantity, Orders, order_at, Fill, LevelQueue, market_size,
}
use quantumsentinel_web.Book.Levels.{OrderBook, side_of}
use quantumsentinel_web.Book.Match.{walked, is_filled}
use quantumsentinel_web.Book.Event.{BookEvent}
use quantumsentinel_web.Engine.{
  EventKind, order_submitted, order_cancelled, order_rejected, FillDetails, ExchangeEvent,
  MatchingEngine, Handled, event_of, submit_order, cancel, with_status,
}
use quantumsentinel_web.Engine.Stops.{expire_orders, is_past}
use quantumsentinel_web.Engine.Feed.{on_market_event}
use quantumsentinel_web.Exchange.Position.{PaperPosition, apply_fill, signed}

-- An order in flight with the time of its arrival; the heap is in the order of its pushes.
pub record InFlight : Type 0 where
  pub arrival : ℕ
  pub order : Order

pub record Estimate : Type 0 where
  pub order_id : ℕ
  pub cost : ℕ

-- `latency` is in the clock's unit, `tolerance` is the 1e-6 of the cash check and `clock_eps` the 1e-9
-- of the clock. `order_history` has
-- the orders as they were last known outside the book and the waiting stops.
pub record PaperExchange : Type 0 where
  pub latency : ℕ
  pub tolerance : ℕ
  pub clock_eps : ℕ
  pub cash : ℤ
  pub position : PaperPosition
  pub engine : MatchingEngine
  pub fill_history : List Fill
  pub order_history : List Order
  pub event_log : List ExchangeEvent
  pub order_seq : ℕ
  pub inflight : List InFlight
  pub market_cost_estimate : List Estimate
  pub event_count : ℕ
  pub current_time : ℕ
  pub has_expiring : Bool

-- An order is one object that the history, the book and the waiting stops share. Its present state is
-- the book's where it has rested, that of the waiting stop, or the history's.
abbrev is_paper_order : ℕ → Order → Bool
is_paper_order order_id o = not (is_feed o.owner) && o.order_id == order_id

abbrev or_found : Option Order → Option Order → Option Order
or_found none other = other
or_found (some o) other = some o

unfoldable pub current : PaperExchange → ℕ → Option Order
unfolding first_where
current x order_id = or_found (first_where (is_paper_order order_id) x.engine.book.orders) (
    or_found (first_where (is_paper_order order_id) x.engine.pending_stops)
      (first_where (is_paper_order order_id) x.order_history))

abbrev or_order : Order → Option Order → Order
or_order o none = o
or_order o (some p) = p

unfoldable pub is_working : OrderStatus → Bool
is_working submitted = true
is_working accepted = true
is_working queued = true
is_working partially_filled = true
is_working _ = false

unfoldable pub same_side : TradeSide → TradeSide → Bool
same_side buy buy = true
same_side sell sell = true
same_side _ _ = false

unfoldable pub present : PaperExchange → List Order → List Order
unfolding current
present x [] = []
present x (o ∷ orders) = or_order o (current x o.order_id) ∷ present x orders

unfoldable pub working : PaperExchange → TradeSide → List Order
unfolding is_working same_side present select_where
working x side =
    select_where (λ o. same_side o.side side && is_working o.status) (present x x.order_history)

abbrev cost_of : Option Estimate → ℕ
cost_of none = 0
cost_of (some e) = e.cost

abbrev pub price_or_stop : Option ℕ → Option ℕ → ℕ
price_or_stop (some limit_price) stop_price = limit_price
price_or_stop none (some stop_price) = stop_price
price_or_stop none none = 0

abbrev pub is_market : OrderType → Bool
is_market t = elim t [ market ↦ true | _ ↦ false ]

abbrev pub commitment : PaperExchange → Order → ℕ
commitment x o =
    if is_market o.order_type
    then cost_of (first_where (λ e. e.order_id == o.order_id) x.market_cost_estimate)
    else remaining_quantity o * price_or_stop o.limit_price o.stop_price

unfoldable pub committed_cash : PaperExchange → ℕ
unfolding working first_where
committed_cash x = sum_by (commitment x) (working x buy)

unfoldable pub available_cash : PaperExchange → ℤ
unfolding committed_cash
available_cash x = x.cash -ℤ pos (committed_cash x)

unfoldable pub sellable_quantity : PaperExchange → ℤ
unfolding working
sellable_quantity x = x.position.quantity -ℤ pos (sum_by remaining_quantity (working x sell))

-- The walk over the ask levels: what it costs so far, what is left, the last price.
unfoldable pub estimate_levels : Orders → List LevelQueue → ℕ → ℕ → ℕ → ℕ
unfolding market_size
estimate_levels orders [] remaining cost last_price = cost + remaining * last_price
estimate_levels orders (level ∷ levels) remaining cost last_price =
    let taken = min remaining (market_size orders level) in
    let left = remaining - taken in
    let paid = cost + taken * level.price in
    let rest = estimate_levels orders levels left paid level.price in
    if leb left eps then paid + left * level.price else rest

abbrev estimate_from : OrderBook → ℕ → List LevelQueue → Option ℕ
estimate_from b quantity [] = none
estimate_from b quantity (level ∷ levels) =
    some (estimate_levels b.orders (level ∷ levels) quantity 0 0)

unfoldable pub estimate_market_buy_cost : OrderBook → ℕ → Option ℕ
unfolding estimate_levels walked
estimate_market_buy_cost b quantity = estimate_from b quantity (walked buy b.asks)
