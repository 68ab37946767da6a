-- ===== src/Book/Levels.antt =====
-- The limit order book (backend/services/order_book.py: OrderBook). The dictionary of a side's
-- levels and the sorted list of its keys are one list of levels, ascending by ticks.
use quantumsentinel_web.Prelude.{
  ℕ, ◌+◌, ◌*◌, ◌/◌, ◌%◌, Bool, true, false, not, ◌&&◌, ltb, ◌==◌, if◌then◌else◌, Option, none, some,
  List, [], ◌∷◌, select_where, first_where, update_where, count_where, ◌++◌,
}
use quantumsentinel_web.Book.{
  TradeSide, buy, sell, queued, cancelled, is_feed, Order, eps, remaining_quantity, is_active,
  Orders, count_orders, order_at, update_at, LevelQueue, total_size, market_size, add_to_level,
  remove_id, refresh_queue_positions,
}

-- An element of `_orders`: an order's id and its address.
pub record Indexed : Type 0 where
  pub order_id : ℕ
  pub address : ℕ

pub record OrderBook : Type 0 where
  pub tick_size : ℕ
  pub bids : List LevelQueue
  pub asks : List LevelQueue
  pub orders : Orders
  pub index : List Indexed
  pub last_trade_price : Option ℕ
  pub last_trade_size : Option ℕ
  pub last_event_time : ℕ

-- To the nearest tick, ties to even.
unfoldable pub to_ticks : ℕ → ℕ → ℕ
to_ticks tick price =
    let q = price / tick in
    let twice = 2 * (price % tick) in
    if ltb tick twice then q + 1 else if twice == tick then q + q % 2 else q

abbrev pub from_ticks : ℕ → ℕ → ℕ
from_ticks tick ticks = ticks * tick

abbrev pub side_of : TradeSide → OrderBook → List LevelQueue
side_of side b = elim side [ buy ↦ b.bids | sell ↦ b.asks ]

unfoldable pub with_side : TradeSide → List LevelQueue → OrderBook → OrderBook
with_side buy levels b = record b { bids = levels }
with_side sell levels b = record b { asks = levels }

abbrev pub at_ticks : ℕ → LevelQueue → Bool
at_ticks ticks level = level.ticks == ticks

unfoldable pub find_level : ℕ → List LevelQueue → Option LevelQueue
find_level ticks levels = first_where (at_ticks ticks) levels

-- The level in its place, where the side does not have it yet.
unfoldable pub create_level : LevelQueue → List LevelQueue → List LevelQueue
create_level new [] = new ∷ []
create_level new (level ∷ levels) =
    if new.ticks == level.ticks
    then level ∷ levels
    else if ltb new.ticks level.ticks
    then new ∷ level ∷ levels
    else level ∷ create_level new levels

-- `_orders[order_id] = order`: a key that is there keeps its place.
unfoldable pub set_index : ℕ → ℕ → List Indexed → List Indexed
set_index order_id address index =
    let entry : Indexed = record { order_id = order_id; address = address } in
    if count_where (λ (i : Indexed). i.order_id == order_id) index == 0
    then index ++ entry ∷ []
    else update_where (λ (i : Indexed). i.order_id == order_id) (λ i. entry) index

abbrev pub is_kept : Option Order → Bool
is_kept found = elim found [
  | none ↦ false
  | some o ↦ ltb eps (remaining_quantity o) && is_active o.status
]

-- The id of an order of the feed that `_prune` forgets.
abbrev pub forgets : Option Order → ℕ → Bool
forgets found order_id = elim found [
  | none ↦ false
  | some o ↦ is_feed o.owner && o.order_id == order_id
]

unfoldable pub forget : Orders → List ℕ → List Indexed → List Indexed
unfolding order_at
forget orders [] index = index
forget orders (a ∷ addresses) index =
    let found = order_at orders a in
    forget orders addresses
      (if is_kept found then index else select_where (λ i. not (forgets found i.order_id)) index)

abbrev pub kept_orders : Orders → LevelQueue → List ℕ
kept_orders orders level = select_where (λ a. is_kept (order_at orders a)) level.orders

unfoldable pub has_orders : List ℕ → Bool
has_orders [] = false
has_orders (a ∷ addresses) = true

-- Drop the level where it is empty, else write its orders.
unfoldable pub set_level : ℕ → List ℕ → List LevelQueue → List LevelQueue
unfolding has_orders
set_level ticks addresses levels =
    if has_orders addresses
    then update_where (at_ticks ticks) (λ level. record level { orders = addresses }) levels
    else select_where (λ level. not (at_ticks ticks level)) levels

unfoldable pub prune_level : TradeSide → OrderBook → Option LevelQueue → OrderBook
unfolding with_side forget set_level refresh_queue_positions
prune_level side b none = b
prune_level side b (some level) =
    let kept = kept_orders b.orders level in
    with_side side (set_level level.ticks kept (side_of side b)) (record b {
      index = forget b.orders level.orders b.index;
      orders = refresh_queue_positions 0 kept b.orders;
    })

unfoldable pub prune : TradeSide → ℕ → OrderBook → OrderBook
unfolding prune_level find_level
prune side ticks b = prune_level side b (find_level ticks (side_of side b))

-- The order as it rests behind `ahead`, at the grid's price where it is of the feed.
unfoldable pub rested : ℕ → ℕ → ℕ → ℕ → Order → Order
rested tick ticks ahead timestamp o = record o {
  limit_price = if is_feed o.owner then some (from_ticks tick ticks) else o.limit_price;
  queue_ahead = ahead;
  queue_ahead_at_entry = ahead;
  queue_ahead_peak = ahead;
  entered_book_at = some timestamp;
  status = if o.filled_quantity == 0 then queued else o.status;
}

abbrev ahead_at : Orders → Option LevelQueue → ℕ
ahead_at orders found = elim found [ none ↦ 0 | some level ↦ total_size orders level ]

unfoldable pub rest_at : OrderBook → Order → ℕ → ℕ → OrderBook
unfolding with_side find_level create_level set_index rested total_size count_orders
rest_at b o ticks timestamp =
    let address = count_orders b.orders in
    let levels =
      create_level record { price = from_ticks b.tick_size ticks; ticks = ticks; orders = [] }
        (side_of o.side b) in
    let ahead = ahead_at b.orders (find_level ticks levels) in
    with_side o.side (update_where (at_ticks ticks) (add_to_level address) levels) (record b {
      orders = rested b.tick_size ticks ahead timestamp o ∷ b.orders;
      index = set_index o.order_id address b.index;
    })

-- An order without a limit never rests. `timestamp` is the caller's, or the clock's.
unfoldable pub add_order : OrderBook → Order → ℕ → OrderBook
unfolding rest_at to_ticks
add_order b o timestamp = elim o.limit_price [
  | none ↦ b
  | some price ↦ rest_at b o (to_ticks b.tick_size price) timestamp
]

unfoldable pub address_of : List Indexed → ℕ → Option ℕ
address_of index order_id = elim (first_where (λ i. i.order_id == order_id) index) [
  | none ↦ none
  | some i ↦ some i.address
]

unfoldable pub get_order : OrderBook → ℕ → Option Order
unfolding address_of
get_order b order_id = elim (address_of b.index order_id) [
  | none ↦ none
  | some a ↦ order_at b.orders a
]

abbrev pub cancelled_order : Order → Order
cancelled_order o = record o { status = cancelled }

unfoldable pub cancel_at : OrderBook → ℕ → ℕ → Order → ℕ → OrderBook
unfolding with_side remove_id prune
cancel_at b order_id address o ticks =
    let orders = update_at address cancelled_order b.orders in
    let levels =
      update_where (at_ticks ticks)
        (λ level. record level { orders = remove_id orders order_id level.orders })
        (side_of o.side b) in
    prune o.side ticks (with_side o.side levels (record b { orders = orders }))

unfoldable pub cancel_found : OrderBook → ℕ → ℕ → Option Order → OrderBook × Bool
unfolding cancel_at to_ticks
cancel_found b order_id address none = (b, false)
cancel_found b order_id address (some o) =
    if not (is_active o.status) then (b, false) else elim o.limit_price [
      | none ↦ (b, false)
      | some price ↦ (cancel_at b order_id address o (to_ticks b.tick_size price), true)
    ]

-- True where the order was cancelled.
unfoldable pub cancel_order : OrderBook → ℕ → OrderBook × Bool
unfolding cancel_found address_of
cancel_order b order_id = elim (address_of b.index order_id) [
  | none ↦ (b, false)
  | some address ↦ cancel_found b order_id address (order_at b.orders address)
]

unfoldable pub market_depth : OrderBook → TradeSide → ℕ → ℕ
unfolding find_level to_ticks market_size
market_depth b side price = elim (find_level (to_ticks b.tick_size price) (side_of side b)) [
  | none ↦ 0
  | some level ↦ market_size b.orders level
]
