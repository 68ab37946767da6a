-- ===== src/Engine/Stops.antt =====
-- Stop orders and expiry (backend/services/matching_engine.py: _check_stop_triggers, expire_orders).
use quantumsentinel_web.Prelude.{
  ℕ, Bool, false, not, ◌&&◌, leb, ◌==◌, if◌then◌else◌, Option, none, some, List, [], ◌∷◌, ◌++◌,
  select_where,
}
use quantumsentinel_web.Book.{
  TradeSide, buy, sell, OrderType, market, limit, stop, expired, is_feed, Order, is_active,
  order_at, update_at,
}
use quantumsentinel_web.Book.Levels.{OrderBook, Indexed, cancel_order}
use quantumsentinel_web.Engine.{
  ExchangeEvent, MatchingEngine, Handled, event_of, with_status, order_triggered, order_expired,
  execute_market_order, execute_limit_order,
}

unfoldable pub stop_hit : TradeSide → ℕ → Option ℕ → Bool
stop_hit side trade_price none = false
stop_hit buy trade_price (some stop_price) = leb stop_price trade_price
stop_hit sell trade_price (some stop_price) = leb trade_price stop_price

unfoldable pub execute_triggered : OrderType → OrderBook → Order → ℕ → Handled
unfolding execute_market_order execute_limit_order
execute_triggered stop b o now = execute_market_order b (record o { order_type = market }) now
execute_triggered _ b o now = execute_limit_order b (record o { order_type = limit }) now

-- The book, the stops that still wait, and the triggered orders as their execution leaves them.
pub record Triggered : Type 0 where
  pub book : OrderBook
  pub waiting : List Order
  pub executed : List Order
  pub events : List ExchangeEvent

unfoldable pub check_stop_triggers : ℕ → ℕ → List Order → OrderBook → Triggered
unfolding stop_hit execute_triggered
check_stop_triggers trade_price now [] b = record {
  book = b;
  waiting = [];
  executed = [];
  events = [];
}
check_stop_triggers trade_price now (o ∷ stops) b =
    let h = execute_triggered o.order_type b o now in
    let kept = check_stop_triggers trade_price now stops b in
    let after = check_stop_triggers trade_price now stops h.book in
    if stop_hit o.side trade_price o.stop_price
    then record after {
      executed = h.order ∷ after.executed;
      events = (event_of now order_triggered o ∷ h.events) ++ after.events;
    }
    else record kept { waiting = o ∷ kept.waiting }

-- `order.expires_at and now >= order.expires_at`
abbrev pub is_past : ℕ → Option ℕ → Bool
is_past now expires_at = elim expires_at [ none ↦ false | some at ↦ not (at == 0) && leb at now ]

abbrev pub expires_at_now : ℕ → Option Order → Bool
expires_at_now now found = elim found [
  | none ↦ false
  | some o ↦ (not (is_feed o.owner) && is_active o.status) && is_past now o.expires_at
]

-- One element of the book's index.
unfoldable pub expire_one : ℕ → Indexed → OrderBook → OrderBook × List ExchangeEvent
unfolding cancel_order update_at order_at
expire_one now i b =
    let (b', done) = cancel_order b i.order_id in
    if expires_at_now now (order_at b.orders i.address) && done
    then (
      record b' { orders = update_at i.address (with_status expired) b'.orders },
      record { timestamp = now; event_type = order_expired; order_id = i.order_id; details = none }
          ∷ [],
    )
    else (b, [])

unfoldable pub expire_resting : ℕ → List Indexed → OrderBook → OrderBook × List ExchangeEvent
unfolding expire_one
expire_resting now [] b = (b, [])
expire_resting now (i ∷ index) b =
    let (b1, events) = expire_one now i b in
    let (b2, more) = expire_resting now index b1 in (b2, events ++ more)

unfoldable pub expire_events : ℕ → List Order → List ExchangeEvent
expire_events now [] = []
expire_events now (o ∷ stops) = event_of now order_expired o ∷ expire_events now stops

unfoldable pub expire_orders : MatchingEngine → ℕ → MatchingEngine × List ExchangeEvent
unfolding expire_resting expire_events
expire_orders e now =
    let (b, resting) = expire_resting now e.book.index e.book in
    let events =
      resting ++ expire_events now (select_where (λ o. is_past now o.expires_at) e.pending_stops) in
    (
      record e {
        book = b;
        pending_stops = select_where (λ o. not (is_past now o.expires_at)) e.pending_stops;
        event_log = e.event_log ++ events;
      },
      events,
    )
