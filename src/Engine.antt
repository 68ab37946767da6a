-- ===== src/Engine.antt =====
-- The matching engine of paper orders (backend/services/matching_engine.py), over the order book. Of an
-- event its kind, its order, its fill and the number of the reason of a rejection are kept. The submitted
-- order is a value that the operations pass on until the book stores it. Prices are compared without the
-- source's tolerance of 1e-9, which is less than their unit.
pub mod Immediate
pub mod Stops
pub mod Feed
use quantumsentinel_web.Prelude.{
  ℕ, ◌+◌, ◌-◌, ◌*◌, ◌%◌, Bool, true, false, not, ◌&&◌, ◌||◌, ltb, leb, ◌==◌, if◌then◌else◌, Option,
  none, some, List, [], ◌∷◌, ◌++◌, sum_by, map, first_where, select_where,
}
use quantumsentinel_web.Book.{
  TradeSide, buy, sell, OrderType, market, limit, stop, stop_limit, OrderStatus, submitted,
  accepted, queued, partially_filled, filled, cancelled, rejected, expired, TimeInForce, day, gtc,
  ioc, fok, Owner, feed, paper, is_feed, Order, eps, remaining_quantity, is_active, record_fill,
  Fill, Orders, order_at, update_at, LevelQueue, market_size, total_size,
}
use quantumsentinel_web.Book.Levels.{
  OrderBook, Indexed, side_of, get_order, add_order, cancel_order, address_of,
}
use quantumsentinel_web.Book.Match.{opposite, walked, is_filled, consume_liquidity}

pub data EventKind : Type 0 where
  order_submitted order_accepted order_queued order_triggered order_partially_filled order_filled
        order_cancelled order_expired :
      EventKind
  order_rejected : ℕ → EventKind

-- The details of a fill: an aggressor is the taker of liquidity.
pub record FillDetails : Type 0 where
  pub fill_price : ℕ
  pub fill_quantity : ℕ
  pub side : TradeSide
  pub aggressor : Bool

pub record ExchangeEvent : Type 0 where
  pub timestamp : ℕ
  pub event_type : EventKind
  pub order_id : ℕ
  pub details : Option FillDetails

pub record MatchingEngine : Type 0 where
  pub book : OrderBook
  pub event_log : List ExchangeEvent
  pub pending_stops : List Order

-- What an operation on an order leaves: the book, the order, the events.
pub record Handled : Type 0 where
  pub book : OrderBook
  pub order : Order
  pub events : List ExchangeEvent

abbrev pub event_of : ℕ → EventKind → Order → ExchangeEvent
event_of now kind o = record {
  timestamp = now;
  event_type = kind;
  order_id = o.order_id;
  details = none;
}

abbrev pub fill_event : ℕ → ℕ → ℕ → Bool → Order → ExchangeEvent
fill_event price quantity now aggressor o = record {
  timestamp = now;
  event_type = if is_filled o.status then order_filled else order_partially_filled;
  order_id = o.order_id;
  details =
      some record {
        fill_price = price;
        fill_quantity = quantity;
        side = o.side;
        aggressor = aggressor;
      };
}

abbrev pub with_status : OrderStatus → Order → Order
with_status status o = record o { status = status }

-- The order with the events of before it, in a status that ends it.
unfoldable pub close : ℕ → EventKind → OrderStatus → Handled → Handled
close now kind status h = record h {
  order = with_status status h.order;
  events = h.events ++ event_of now kind h.order ∷ [];
}

-- The fills one after another: the order after each, and an event.
unfoldable pub take_fills : ℕ → List Fill → Order → Order × List ExchangeEvent
unfolding record_fill is_filled
take_fills now [] o = (o, [])
take_fills now (f ∷ fills) o =
    let o' = record_fill f.fill_price f.fill_quantity now o in
    let (done, events) = take_fills now fills o' in
    (done, fill_event f.fill_price f.fill_quantity now true o' ∷ events)

unfoldable pub take : OrderBook → Order → ℕ → Option ℕ → Handled
unfolding consume_liquidity take_fills
take b o now limit_price =
    let (b', fills) = consume_liquidity b o.side (remaining_quantity o) now limit_price true in
    let (o', events) = take_fills now fills o in record { book = b'; order = o'; events = events }

unfoldable pub beyond : TradeSide → Option ℕ → LevelQueue → Bool
beyond side none level = false
beyond buy (some limit_price) level = ltb limit_price level.price
beyond sell (some limit_price) level = ltb level.price limit_price

unfoldable pub available_in : Orders → TradeSide → Option ℕ → List LevelQueue → ℕ
unfolding beyond market_size
available_in orders side limit_price [] = 0
available_in orders side limit_price (level ∷ levels) =
    let rest = available_in orders side limit_price levels in
    if beyond side limit_price level then 0 else market_size orders level + rest

unfoldable pub available : OrderBook → TradeSide → Option ℕ → ℕ
unfolding available_in walked
available b side limit_price =
    available_in b.orders side limit_price (walked side (side_of (opposite side) b))

unfoldable pub finish_market : ℕ → Handled → Handled
unfolding close
finish_market now h =
    if leb h.order.filled_quantity eps
    then close now (order_rejected 1) rejected h
    else if ltb eps (remaining_quantity h.order)
    then close now order_cancelled cancelled h
    else h

unfoldable pub execute_market_order : OrderBook → Order → ℕ → Handled
unfolding take finish_market
execute_market_order b o now = finish_market now (take b o now none)

unfoldable pub best_price : List LevelQueue → Option ℕ
best_price [] = none
best_price (level ∷ levels) = some level.price

unfoldable pub crosses : TradeSide → Option ℕ → Option ℕ → Bool
crosses side none best = false
crosses side (some limit_price) none = false
crosses buy (some limit_price) (some best) = leb best limit_price
crosses sell (some limit_price) (some best) = leb limit_price best

unfoldable pub is_marketable : OrderBook → Order → Bool
unfolding crosses best_price walked
is_marketable b o =
    crosses o.side o.limit_price (best_price (walked o.side (side_of (opposite o.side) b)))

abbrev pub is_fok : TimeInForce → Bool
is_fok t = elim t [ fok ↦ true | _ ↦ false ]

unfoldable pub is_immediate : TimeInForce → Bool
is_immediate ioc = true
is_immediate fok = true
is_immediate _ = false

abbrev pub or_else : Order → Option Order → Order
or_else o found = elim found [ none ↦ o | some p ↦ p ]

unfoldable pub finish_limit : ℕ → Handled → Handled
unfolding close add_order is_immediate get_order
finish_limit now h =
    if leb (remaining_quantity h.order) eps
    then h
    else if is_immediate h.order.time_in_force
    then close now order_cancelled cancelled h
    else let b = add_order h.book h.order now in
      record h {
        book = b;
        order = or_else h.order (get_order b h.order.order_id);
        events = h.events ++ event_of now order_queued h.order ∷ [];
      }

unfoldable pub execute_limit_order : OrderBook → Order → ℕ → Handled
unfolding available close take is_marketable finish_limit
execute_limit_order b o now =
    let untouched : Handled = record { book = b; order = o; events = [] } in
    if is_fok o.time_in_force && ltb (available b o.side o.limit_price + eps) o.quantity
    then close now (order_rejected 2) rejected untouched
    else finish_limit now (if is_marketable b o then take b o now o.limit_price else untouched)

unfoldable pub limit_missing : OrderType → Option ℕ → Bool
limit_missing limit none = true
limit_missing stop_limit none = true
limit_missing _ _ = false

unfoldable pub stop_missing : OrderType → Option ℕ → Bool
stop_missing stop none = true
stop_missing stop_limit none = true
stop_missing _ _ = false

abbrev pub off_grid : ℕ → Option ℕ → Bool
off_grid tick price = elim price [ none ↦ false | some p ↦ p == 0 || not (p % tick == 0) ]

-- Why an order is rejected at once.
unfoldable pub rejection : ℕ → Order → Option ℕ
unfolding limit_missing stop_missing
rejection tick o =
    if o.quantity == 0
    then some 3
    else if limit_missing o.order_type o.limit_price
    then some 4
    else if stop_missing o.order_type o.stop_price
    then some 5
    else if off_grid tick o.limit_price || off_grid tick o.stop_price
    then some 6
    else none

-- By the type of an order that was accepted: it is executed, or a stop waits.
unfoldable pub route : OrderType → MatchingEngine → Order → ℕ → MatchingEngine × Handled
unfolding execute_market_order execute_limit_order
route market e o now = let h = execute_market_order e.book o now in (record e { book = h.book }, h)
route limit e o now = let h = execute_limit_order e.book o now in (record e { book = h.book }, h)
route _ e o now = (
  record e { pending_stops = e.pending_stops ++ o ∷ [] },
  record { book = e.book; order = o; events = [] },
)

unfoldable pub logged : List ExchangeEvent → MatchingEngine × Handled → MatchingEngine × Handled
logged before (e, h) =
    let events = before ++ h.events in
    (record e { event_log = e.event_log ++ events }, record h { events = events })

unfoldable pub submit_unless : Option ℕ → MatchingEngine → Order → ℕ → MatchingEngine × Handled
unfolding route logged
submit_unless (some reason) e o now = logged (event_of now order_submitted o ∷ []) (
  e,
  record {
    book = e.book;
    order = with_status rejected o;
    events = event_of now (order_rejected reason) o ∷ [];
  },
)
submit_unless none e o now =
    logged (event_of now order_submitted o ∷ event_of now order_accepted o ∷ [])
      (route o.order_type e (with_status accepted o) now)

unfoldable pub submit_order : MatchingEngine → Order → ℕ → MatchingEngine × Handled
unfolding submit_unless rejection
submit_order e o now =
    let o' : Order = record o { owner = paper } in
    submit_unless (rejection e.book.tick_size o') e o' now

-- The first waiting stop with the id goes; true where there is one.
unfoldable pub remove_stop : ℕ → List Order → List Order × Bool
remove_stop order_id [] = ([], false)
remove_stop order_id (o ∷ stops) =
    let (rest, found) = remove_stop order_id stops in
    if o.order_id == order_id then (stops, true) else (o ∷ rest, found)

unfoldable pub cancel_in_book : MatchingEngine → ℕ → ℕ → MatchingEngine × List ExchangeEvent
unfolding cancel_order
cancel_in_book e order_id now =
    let (b, done) = cancel_order e.book order_id in
    let events =
      if done
      then record {
        timestamp = now;
        event_type = order_cancelled;
        order_id = order_id;
        details = none;
      }
        ∷ []
      else [] in
    (record e { book = b; event_log = e.event_log ++ events }, events)

unfoldable pub cancel : MatchingEngine → ℕ → ℕ → MatchingEngine × List ExchangeEvent
unfolding remove_stop cancel_in_book
cancel e order_id now =
    let (stops, waiting) = remove_stop order_id e.pending_stops in
    let event : ExchangeEvent = record {
      timestamp = now;
      event_type = order_cancelled;
      order_id = order_id;
      details = none;
    } in
    let in_book = cancel_in_book e order_id now in
    if waiting
    then (record e { pending_stops = stops; event_log = e.event_log ++ event ∷ [] }, event ∷ [])
    else in_book
