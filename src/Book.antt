-- ===== src/Book.antt =====
-- The orders of the simulated exchange (backend/services/order_book.py: the enumerations, Order, Fill
-- and LevelQueue). Prices and quantities are whole numbers of a unit that divides the tick and the
-- lots. An Order is a mutable object that the book's index and one level share: orders live in a
-- store, and the index and the levels hold addresses, places in the store.
pub mod Levels
pub mod Queues
pub mod Priority
pub mod Operations
pub mod FeedEvents
pub mod Histories
pub mod Match
pub mod Event
pub mod Print
pub mod Feed
use quantumsentinel_web.Prelude.{
  ℕ, zero, suc, ◌+◌, ◌-◌, ◌*◌, max, Bool, true, false, not, ◌&&◌, ◌||◌, ltb, leb, ◌==◌,
  if◌then◌else◌, Option, none, some, List, [], ◌∷◌, ◌++◌, sum_by, select_where,
}

pub data TradeSide : Type 0 where
  buy sell : TradeSide

pub data OrderType : Type 0 where
  market limit stop stop_limit : OrderType

pub data OrderStatus : Type 0 where
  submitted accepted queued partially_filled filled cancelled rejected expired : OrderStatus

pub data TimeInForce : Type 0 where
  day gtc ioc fok : TimeInForce

pub data Owner : Type 0 where
  feed paper : Owner

abbrev pub is_feed : Owner → Bool
is_feed o = elim o [ feed ↦ true | paper ↦ false ]

-- An average price, exact: `total / quantity`.
pub record Average : Type 0 where
  pub total : ℕ
  pub quantity : ℕ

pub record Order : Type 0 where
  pub order_id : ℕ
  pub side : TradeSide
  pub order_type : OrderType
  pub quantity : ℕ
  pub limit_price : Option ℕ
  pub stop_price : Option ℕ
  pub time_in_force : TimeInForce
  pub submitted_at : ℕ
  pub expires_at : Option ℕ
  pub owner : Owner
  pub status : OrderStatus
  pub filled_quantity : ℕ
  pub avg_fill_price : Average
  pub queue_ahead : ℕ
  pub queue_ahead_at_entry : ℕ
  pub queue_ahead_peak : ℕ
  pub entered_book_at : Option ℕ
  pub filled_at : Option ℕ
  pub active_at : Option ℕ

-- 1e-9, in units: a remainder of one unit is none.
abbrev pub eps : ℕ
eps = 1

abbrev pub remaining_quantity : Order → ℕ
remaining_quantity o = o.quantity - o.filled_quantity

unfoldable pub is_active : OrderStatus → Bool
is_active accepted = true
is_active queued = true
is_active partially_filled = true
is_active _ = false

-- The average of a price for more, weighted by quantity.
unfoldable pub average_with : Average → ℕ → ℕ → ℕ → Average
average_with avg previous price quantity = record {
  total = avg.total * previous + price * quantity * avg.quantity;
  quantity = avg.quantity * (previous + quantity);
}

unfoldable pub record_fill : ℕ → ℕ → ℕ → Order → Order
unfolding average_with
record_fill price quantity timestamp o = record o {
  filled_quantity = o.filled_quantity + quantity;
  avg_fill_price = average_with o.avg_fill_price o.filled_quantity price quantity;
  filled_at = some timestamp;
  status =
      if leb (o.quantity - (o.filled_quantity + quantity)) eps then filled else partially_filled;
}

pub record Fill : Type 0 where
  pub order_id : ℕ
  pub fill_price : ℕ
  pub fill_quantity : ℕ
  pub timestamp : ℕ
  pub is_partial : Bool
  pub aggressor : Bool
  pub side : TradeSide

-- The store: address `n` is the place `n` from the end, so that a new order leaves the others' as
-- they are.
abbrev pub Orders : Type 0
Orders = List Order

unfoldable pub count_orders : Orders → ℕ
count_orders [] = 0
count_orders (o ∷ orders) = suc (count_orders orders)

unfoldable pub order_at : Orders → ℕ → Option Order
unfolding count_orders
order_at [] n = none
order_at (o ∷ orders) n = if count_orders orders == n then some o else order_at orders n

unfoldable pub update_at : ℕ → (Order → Order) → Orders → Orders
unfolding count_orders
update_at n f [] = []
update_at n f (o ∷ orders) = (if count_orders orders == n then f o else o) ∷ update_at n f orders

pub record LevelQueue : Type 0 where
  pub price : ℕ
  pub ticks : ℕ
  pub orders : List ℕ

abbrev pub size_of : Option Order → ℕ
size_of found = elim found [ none ↦ 0 | some o ↦ remaining_quantity o ]

abbrev pub market_size_of : Option Order → ℕ
market_size_of found = elim found [
  | none ↦ 0
  | some o ↦ if is_feed o.owner then remaining_quantity o else 0
]

unfoldable pub total_size : Orders → LevelQueue → ℕ
unfolding order_at
total_size orders level = sum_by (λ a. size_of (order_at orders a)) level.orders

unfoldable pub market_size : Orders → LevelQueue → ℕ
unfolding order_at
market_size orders level = sum_by (λ a. market_size_of (order_at orders a)) level.orders

abbrev pub add_to_level : ℕ → LevelQueue → LevelQueue
add_to_level address level = record level { orders = level.orders ++ address ∷ [] }

abbrev pub has_id : ℕ → Option Order → Bool
has_id order_id found = elim found [ none ↦ false | some o ↦ o.order_id == order_id ]

-- The first order with the id leaves the level.
unfoldable pub remove_id : Orders → ℕ → List ℕ → List ℕ
unfolding order_at
remove_id orders order_id [] = []
remove_id orders order_id (a ∷ addresses) =
    if has_id order_id (order_at orders a)
    then addresses
    else a ∷ remove_id orders order_id addresses

abbrev pub is_empty : Orders → LevelQueue → Bool
is_empty orders level = leb (total_size orders level) eps

-- A paper order's position, with `ahead` in front of it.
abbrev pub positioned : ℕ → Order → Order
positioned ahead o =
    if is_feed o.owner
    then o
    else record o { queue_ahead = ahead; queue_ahead_peak = max o.queue_ahead_peak ahead }

-- `refresh_queue_positions`, with `ahead` in front of the first of the addresses.
unfoldable pub refresh_queue_positions : ℕ → List ℕ → Orders → Orders
unfolding update_at order_at
refresh_queue_positions ahead [] orders = orders
refresh_queue_positions ahead (a ∷ addresses) orders =
    refresh_queue_positions (ahead + size_of (order_at orders a)) addresses
      (update_at a (positioned ahead) orders)
