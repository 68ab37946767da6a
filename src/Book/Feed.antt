-- ===== src/Book/Feed.antt =====
-- The events of the market-data feed (backend/services/order_book.py: apply_market_event,
-- _reduce_market, snapshot). An order of the feed without an id gets the next one that is drawn.
-- `portion amount total remaining` is the remaining quantity times min(1, amount / total), in units.
use quantumsentinel_web.Prelude.{
  ℕ, ◌+◌, ◌-◌, max, Bool, true, false, ◌&&◌, ◌||◌, ltb, leb, ◌==◌, if◌then◌else◌, Option, none,
  some, List, [], ◌∷◌, select_where, update_where, sum_by, map, take,
}
use quantumsentinel_web.Book.{
  TradeSide, buy, sell, limit, submitted, gtc, feed, is_feed, Order, eps, remaining_quantity, Fill,
  Orders, order_at, update_at, LevelQueue, market_size, market_size_of, total_size, add_to_level,
  remove_id,
}
use quantumsentinel_web.Book.Levels.{
  OrderBook, to_ticks, from_ticks, side_of, with_side, at_ticks, find_level, add_order, address_of,
  prune,
}
use quantumsentinel_web.Book.Match.{walked}
use quantumsentinel_web.Book.Event.{
  BookEventType, adding, cancelling, modifying, printing, BookEvent,
}
use quantumsentinel_web.Book.Print.{apply_print}

abbrev or_drawn : Option ℕ → ℕ → ℕ
or_drawn none drawn = drawn
or_drawn (some order_id) drawn = order_id

-- An order of the feed, with the defaults of the dataclass.
abbrev pub feed_order : BookEvent → ℕ → ℕ → ℕ → Order
feed_order event drawn quantity price = record {
  order_id = or_drawn event.order_id drawn;
  side = event.side;
  order_type = limit;
  quantity = quantity;
  limit_price = some price;
  stop_price = none;
  time_in_force = gtc;
  submitted_at = event.timestamp;
  expires_at = none;
  owner = feed;
  status = submitted;
  filled_quantity = 0;
  avg_fill_price = record { total = 0; quantity = 1 };
  queue_ahead = 0;
  queue_ahead_at_entry = 0;
  queue_ahead_peak = 0;
  entered_book_at = none;
  filled_at = none;
  active_at = none;
}

unfoldable pub apply_add : OrderBook → BookEvent → ℕ → OrderBook
unfolding add_order
apply_add b event drawn =
    if ltb eps event.size
    then add_order b
        (feed_order event drawn event.size
          (from_ticks b.tick_size (to_ticks b.tick_size event.price)))
        event.timestamp
    else b

abbrev reducible : Option Order → Bool
reducible found = elim found [
  | none ↦ false
  | some o ↦ is_feed o.owner && ltb eps (remaining_quantity o)
]

module _ (portion : ℕ → ℕ → ℕ → ℕ) where
  abbrev pub reduced : ℕ → ℕ → Order → Order
  reduced amount total o = record o {
    quantity = o.quantity - portion amount total (remaining_quantity o);
  }

  unfoldable pub reduce_each : ℕ → ℕ → List ℕ → Orders → Orders
  unfolding update_at
  reduce_each amount total [] orders = orders
  reduce_each amount total (a ∷ addresses) orders =
      reduce_each amount total addresses (update_at a (reduced amount total) orders)

  -- _reduce_market
  unfoldable pub reduce_market : LevelQueue → ℕ → Orders → Orders
  unfolding reduce_each order_at
  reduce_market level amount orders =
      let market = select_where (λ a. reducible (order_at orders a)) level.orders in
      let total = sum_by (λ a. market_size_of (order_at orders a)) market in
      if leb total eps then orders else reduce_each amount total market orders

unfoldable pub has_address : ℕ → List ℕ → Bool
has_address a [] = false
has_address a (x ∷ xs) = x == a || has_address a xs

abbrev known_feed : LevelQueue → ℕ → Option Order → Bool
known_feed level a found = elim found [
  | none ↦ false
  | some o ↦ is_feed o.owner && has_address a level.orders
]

-- The order that the event names, where it is one of the feed in the level: its address.
unfoldable pub known : OrderBook → LevelQueue → Option ℕ → Option ℕ
unfolding address_of has_address order_at
known b level none = none
known b level (some order_id) = elim (address_of b.index order_id) [
  | none ↦ none
  | some a ↦ if known_feed level a (order_at b.orders a) then some a else none
]

abbrev pub with_quantity : ℕ → Order → Order
with_quantity quantity o = record o { quantity = quantity }

-- An increase loses priority: the order goes to the end of its level.
unfoldable pub requeue : OrderBook → TradeSide → LevelQueue → ℕ → ℕ → OrderBook
unfolding with_side remove_id
requeue b side level order_id a =
    with_side side
      (update_where (at_ticks level.ticks)
        (λ l. add_to_level a (record l { orders = remove_id b.orders order_id l.orders }))
        (side_of side b))
      b

abbrev of_order : Option Order → OrderBook → (Order → OrderBook) → OrderBook
of_order none b f = b
of_order (some o) b f = f o

-- A CANCEL (`cancels`) or MODIFY of one known order.
unfoldable pub change_order : Bool → OrderBook → BookEvent → LevelQueue → ℕ → OrderBook
unfolding requeue update_at order_at
change_order cancels b event level a = of_order (order_at b.orders a) b (λ o.
    let lowered : OrderBook = record b {
      orders =
          update_at a (with_quantity (max o.filled_quantity (o.quantity - event.size))) b.orders;
    } in
    let changed : OrderBook = record b {
      orders = update_at a (with_quantity (o.filled_quantity + event.size)) b.orders;
    } in
    if cancels
    then lowered
    else if leb event.size (remaining_quantity o)
    then changed
    else requeue changed event.side level o.order_id a)

-- A CANCEL or MODIFY of a level as a whole.
unfoldable pub change_level :
    (ℕ → ℕ → ℕ → ℕ) → Bool → OrderBook → BookEvent → ℕ → LevelQueue → OrderBook
unfolding reduce_market add_order market_size
change_level portion cancels b event drawn level =
    let current = market_size b.orders level in
    let target = if cancels then current - event.size else event.size in
    if ltb target current
    then record b { orders = reduce_market portion level (current - target) b.orders }
    else if ltb (current + eps) target
    then add_order b (feed_order event drawn (target - current) level.price) event.timestamp
    else b

abbrev change_known :
    (ℕ → ℕ → ℕ → ℕ) → Bool → OrderBook → BookEvent → ℕ → LevelQueue → Option ℕ → OrderBook
change_known portion cancels b event drawn level (some a) = change_order cancels b event level a
change_known portion cancels b event drawn level none =
    change_level portion cancels b event drawn level

unfoldable pub apply_change :
    (ℕ → ℕ → ℕ → ℕ) → Bool → OrderBook → BookEvent → ℕ → Option LevelQueue → OrderBook
unfolding apply_add known change_order change_level prune
apply_change portion cancels b event drawn none = if cancels then b else apply_add b event drawn
apply_change portion cancels b event drawn (some level) =
    prune event.side (to_ticks b.tick_size event.price)
      (change_known portion cancels b event drawn level (known b level event.order_id))

unfoldable pub apply_as :
    (ℕ → ℕ → ℕ → ℕ) → BookEventType → OrderBook → BookEvent → ℕ → OrderBook × List Fill
unfolding apply_add apply_change find_level apply_print
apply_as portion adding b event drawn = (apply_add b event drawn, [])
apply_as portion cancelling b event drawn = (
  apply_change portion true b event drawn
      (find_level (to_ticks b.tick_size event.price) (side_of event.side b)),
  [],
)
apply_as portion modifying b event drawn = (
  apply_change portion false b event drawn
      (find_level (to_ticks b.tick_size event.price) (side_of event.side b)),
  [],
)
apply_as portion printing b event drawn = apply_print b event

unfoldable pub apply_market_event :
    (ℕ → ℕ → ℕ → ℕ) → OrderBook → BookEvent → ℕ → OrderBook × List Fill
unfolding apply_as
apply_market_event portion b event drawn =
    apply_as portion event.event_type (record b { last_event_time = event.timestamp }) event drawn

-- What the book shows, best levels first.
pub record PriceLevel : Type 0 where
  pub price : ℕ
  pub size : ℕ

pub record OrderBookSnapshot : Type 0 where
  pub timestamp : ℕ
  pub bids : List PriceLevel
  pub asks : List PriceLevel
  pub last_trade_price : Option ℕ
  pub last_trade_size : Option ℕ

abbrev shown : Orders → LevelQueue → PriceLevel
shown orders level = record { price = level.price; size = total_size orders level }

unfoldable pub snapshot : OrderBook → ℕ → OrderBookSnapshot
unfolding total_size walked
snapshot b levels = record {
  timestamp = b.last_event_time;
  bids = map (shown b.orders) (take levels (walked sell b.bids));
  asks = map (shown b.orders) (take levels (walked buy b.asks));
  last_trade_price = b.last_trade_price;
  last_trade_size = b.last_trade_size;
}
