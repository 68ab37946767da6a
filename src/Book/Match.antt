-- ===== src/Book/Match.antt =====
-- Aggressive execution (backend/services/order_book.py: consume_liquidity).
pub mod Bounds
pub mod Prices
pub mod Maker
use quantumsentinel_web.Prelude.{
  ℕ, ◌+◌, ◌-◌, min, Bool, true, false, not, ◌&&◌, ◌||◌, ltb, leb, ◌==◌, if◌then◌else◌, Option, none,
  some, List, [], ◌∷◌, ◌++◌, sum_by,
}
use quantumsentinel_web.Book.{
  TradeSide, buy, sell, OrderStatus, filled, Owner, is_feed, Order, eps, remaining_quantity,
  record_fill, Fill, Orders, order_at, update_at, LevelQueue,
}
use quantumsentinel_web.Book.Levels.{OrderBook, to_ticks, from_ticks, side_of, prune}

abbrev pub opposite : TradeSide → TradeSide
opposite side = elim side [ buy ↦ sell | sell ↦ buy ]

unfoldable pub is_filled : OrderStatus → Bool
is_filled filled = true
is_filled _ = false

abbrev pub fill_of : ℕ → ℕ → ℕ → Order → Fill
fill_of price quantity timestamp o = record {
  order_id = o.order_id;
  fill_price = price;
  fill_quantity = quantity;
  timestamp = timestamp;
  is_partial = not (is_filled (record_fill price quantity timestamp o).status);
  aggressor = false;
  side = o.side;
}

-- What is left of the orders, of the quantity to execute, and the fills.
pub record Swept : Type 0 where
  pub orders : Orders
  pub remaining : ℕ
  pub fills : List Fill

-- The quantity that a resting order gets of `remaining`; `none` where the loop passes it over.
unfoldable pub matched : Bool → ℕ → Order → Option ℕ
matched skip_paper remaining o =
    let quantity = min remaining (remaining_quantity o) in
    if leb remaining eps || ((skip_paper && not (is_feed o.owner)) || leb quantity eps)
    then none
    else some quantity

unfoldable pub match_order : Bool → ℕ → Option Order → Option (Order × ℕ)
unfolding matched
match_order skip_paper remaining none = none
match_order skip_paper remaining (some o) = elim (matched skip_paper remaining o) [
  | none ↦ none
  | some quantity ↦ some (o, quantity)
]

-- One resting order of a level, and the rest of the loop.
unfoldable pub fill_then :
    (Orders → ℕ → Swept) → ℕ → ℕ → ℕ → Option (Order × ℕ) → Orders → ℕ → Swept
unfolding update_at record_fill is_filled
fill_then rest price timestamp address none orders remaining = rest orders remaining
fill_then rest price timestamp address (some (o, quantity)) orders remaining =
    let swept =
      rest (update_at address (record_fill price quantity timestamp) orders)
        (remaining - quantity) in
    record swept { fills = fill_of price quantity timestamp o ∷ swept.fills }

-- The orders of one level, first in first out.
unfoldable pub consume_orders : Bool → ℕ → ℕ → List ℕ → Orders → ℕ → Swept
unfolding match_order fill_then order_at
consume_orders skip_paper price timestamp [] orders remaining = record {
  orders = orders;
  remaining = remaining;
  fills = [];
}
consume_orders skip_paper price timestamp (a ∷ addresses) orders remaining =
    fill_then (λ left more. consume_orders skip_paper price timestamp addresses left more) price
      timestamp a (match_order skip_paper remaining (order_at orders a)) orders remaining

-- The loop over the levels stops: nothing is left, or the level is beyond the limit.
unfoldable pub stops : TradeSide → Option ℕ → ℕ → LevelQueue → Bool
stops side none remaining level = leb remaining eps
stops buy (some limit_ticks) remaining level = leb remaining eps || ltb limit_ticks level.ticks
stops sell (some limit_ticks) remaining level = leb remaining eps || ltb level.ticks limit_ticks

pub record Execution : Type 0 where
  pub book : OrderBook
  pub remaining : ℕ
  pub fills : List Fill

abbrev pub after_fills : List Fill → Execution → Execution
after_fills fills e = record e { fills = fills ++ e.fills }

-- The levels best first, each pruned after its orders.
unfoldable pub consume_levels :
    Bool → TradeSide → Option ℕ → ℕ → List LevelQueue → OrderBook → ℕ → Execution
unfolding stops consume_orders
consume_levels skip_paper side limit timestamp [] b remaining = record {
  book = b;
  remaining = remaining;
  fills = [];
}
consume_levels skip_paper side limit timestamp (level ∷ levels) b remaining =
    let swept = consume_orders skip_paper level.price timestamp level.orders b.orders remaining in
    let rest =
      consume_levels skip_paper side limit timestamp levels
        (prune (opposite side) level.ticks (record b { orders = swept.orders })) swept.remaining in
    if stops side limit remaining level
    then record { book = b; remaining = remaining; fills = [] }
    else after_fills swept.fills rest

unfoldable pub reverse_onto : List LevelQueue → List LevelQueue → List LevelQueue
reverse_onto [] done = done
reverse_onto (level ∷ levels) done = reverse_onto levels (level ∷ done)

-- Best first: ascending for a buyer, descending for a seller.
unfoldable pub walked : TradeSide → List LevelQueue → List LevelQueue
unfolding reverse_onto
walked buy levels = levels
walked sell levels = reverse_onto levels []

unfoldable pub last_price : List Fill → Option ℕ → Option ℕ
last_price [] before = before
last_price (fill ∷ fills) before = last_price fills (some fill.fill_price)

abbrev pub filled_total : List Fill → ℕ
filled_total fills = sum_by (λ f. f.fill_quantity) fills

-- The last trade of the book, where there is a fill.
unfoldable pub traded : List Fill → OrderBook → OrderBook
unfolding last_price
traded [] b = b
traded (fill ∷ fills) b = record b {
  last_trade_price = last_price (fill ∷ fills) none;
  last_trade_size = some (filled_total (fill ∷ fills));
}

unfoldable pub limit_of : OrderBook → Option ℕ → Option ℕ
unfolding to_ticks
limit_of b none = none
limit_of b (some price) = some (to_ticks b.tick_size price)

unfoldable pub consume_liquidity :
    OrderBook → TradeSide → ℕ → ℕ → Option ℕ → Bool → OrderBook × List Fill
unfolding consume_levels walked traded limit_of
consume_liquidity b side quantity timestamp limit_price skip_paper =
    let e =
      consume_levels skip_paper side (limit_of b limit_price) timestamp
        (walked side (side_of (opposite side) b)) b quantity in
    (traded e.fills e.book, e.fills)
