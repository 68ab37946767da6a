-- ===== src/Book/Print.antt =====
-- A trade that the feed prints (backend/services/order_book.py: apply_market_event, TRADE).
pub mod Bounds
use quantumsentinel_web.Prelude.{
  ℕ, ◌+◌, ◌-◌, max, min, Bool, true, false, not, ◌&&◌, ◌||◌, ltb, leb, ◌==◌, if◌then◌else◌, Option,
  none, some, List, [], ◌∷◌, ◌++◌, select_where, update_where, first_where, sum_by, map, take,
}
use quantumsentinel_web.Book.{
  TradeSide, buy, sell, OrderType, limit, OrderStatus, submitted, TimeInForce, gtc, Owner, feed,
  is_feed, Order, eps, remaining_quantity, record_fill, Fill, Orders, order_at, update_at,
  LevelQueue, market_size, market_size_of, total_size, add_to_level, remove_id,
}
use quantumsentinel_web.Book.Levels.{
  Indexed, OrderBook, to_ticks, from_ticks, side_of, with_side, at_ticks, find_level, add_order,
  address_of, prune,
}
use quantumsentinel_web.Book.Match.{
  opposite, fill_of, Swept, match_order, Execution, after_fills, walked,
}
use quantumsentinel_web.Book.Event.{BookEvent}

-- What a print leaves of a resting order: the feed's loses the quantity, a paper order is filled.
unfoldable pub printed : ℕ → ℕ → ℕ → Order → Order
unfolding record_fill
printed price quantity timestamp o =
    if is_feed o.owner
    then record o { quantity = o.quantity - quantity }
    else record_fill price quantity timestamp o

abbrev pub printed_fills : ℕ → ℕ → ℕ → Order → List Fill → List Fill
printed_fills price quantity timestamp o fills =
    if is_feed o.owner then fills else fill_of price quantity timestamp o ∷ fills

unfoldable pub print_then :
    (Orders → ℕ → Swept) → ℕ → ℕ → ℕ → Option (Order × ℕ) → Orders → ℕ → Swept
unfolding update_at printed
print_then rest price timestamp address none orders remaining = rest orders remaining
print_then rest price timestamp address (some (o, quantity)) orders remaining =
    let swept =
      rest (update_at address (printed price quantity timestamp) orders) (remaining - quantity) in
    record swept { fills = printed_fills price quantity timestamp o swept.fills }

unfoldable pub print_orders : ℕ → ℕ → List ℕ → Orders → ℕ → Swept
unfolding match_order print_then order_at
print_orders price timestamp [] orders remaining = record {
  orders = orders;
  remaining = remaining;
  fills = [];
}
print_orders price timestamp (a ∷ addresses) orders remaining =
    print_then (λ left more. print_orders price timestamp addresses left more) price timestamp a
      (match_order false remaining (order_at orders a)) orders remaining

unfoldable pub print_levels : TradeSide → ℕ → List LevelQueue → OrderBook → ℕ → Execution
unfolding print_orders prune
print_levels side timestamp [] b remaining = record { book = b; remaining = remaining; fills = [] }
print_levels side timestamp (level ∷ levels) b remaining =
    let swept = print_orders level.price timestamp level.orders b.orders remaining in
    let rest =
      print_levels side timestamp levels
        (prune (opposite side) level.ticks (record b { orders = swept.orders })) swept.remaining in
    if leb remaining eps
    then record { book = b; remaining = remaining; fills = [] }
    else after_fills swept.fills rest

-- The level is at the print or better.
unfoldable pub in_path : TradeSide → ℕ → LevelQueue → Bool
in_path buy ticks level = leb level.ticks ticks
in_path sell ticks level = leb ticks level.ticks

unfoldable pub apply_print : OrderBook → BookEvent → OrderBook × List Fill
unfolding print_levels walked in_path to_ticks
apply_print b event =
    let ticks = to_ticks b.tick_size event.price in
    let seen : OrderBook = record b {
      last_trade_price = some (from_ticks b.tick_size ticks);
      last_trade_size = some event.size;
    } in
    let path =
      select_where (in_path event.side ticks)
        (walked event.side (side_of (opposite event.side) b)) in
    let e = print_levels event.side event.timestamp path seen event.size in (e.book, e.fills)
