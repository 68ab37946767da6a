-- ===== src/Book/Print/Bounds.antt =====
-- How much a print takes, and at which prices it fills paper orders.
use quantumsentinel_web.Prelude.{
  ℕ, ◌+◌, ◌-◌, ◌≤◌, ◌≡◌, refl, true, false, Option, none, some, List, [], ◌∷◌, arith, sum_by,
  if_both, All, All-append, select_where, leb, inl, inr, Bool-cases,
}
use quantumsentinel_web.Book.{
  TradeSide, buy, sell, Order, Fill, Orders, order_at, update_at, LevelQueue, eps, is_feed,
}
use quantumsentinel_web.Book.Levels.{OrderBook, side_of, prune, to_ticks, from_ticks}
use quantumsentinel_web.Book.Match.{opposite, Swept, match_order, Execution, walked, filled_total}
use quantumsentinel_web.Book.Match.Bounds.{match_order-most, sum_fills-append}
use quantumsentinel_web.Book.Match.Prices.{AsGood, OnGrid, times, walked-All}
use quantumsentinel_web.Book.Event.{BookEvent}
use quantumsentinel_web.Book.Print.{
  printed, print_then, print_orders, print_levels, in_path, apply_print,
}

-- The fills come to at most what the print loses, each at the price.
abbrev Within : ℕ → ℕ → Swept → Type 0
Within price remaining s =
    (filled_total s.fills + s.remaining ≤ remaining) × All (λ f. f.fill_price ≡ price) s.fills

print_then-Within :
    (rest : Orders → ℕ → Swept) (price timestamp address : ℕ) (found : Option (Order × ℕ))
    (orders : Orders) (remaining : ℕ)
    → ((left : Orders) (more : ℕ) → Within price more (rest left more))
    → ((o : Order) (quantity : ℕ) → found ≡ some (o, quantity) → quantity ≤ remaining)
    → Within price remaining (print_then rest price timestamp address found orders remaining)
unfolding print_then sum_by
print_then-Within rest price timestamp address none orders remaining k m = k orders remaining
print_then-Within rest price timestamp address (some (o, quantity)) orders remaining k m =
    let most = m o quantity refl in
    let after =
      k (update_at address (printed price quantity timestamp) orders) (remaining - quantity) in
    if_both
      (λ (fills : List Fill).
        (filled_total fills
            + (rest (update_at address (printed price quantity timestamp) orders)
                (remaining - quantity)).remaining
          ≤ remaining)
        × All (λ f. f.fill_price ≡ price) fills)
      (is_feed o.owner) (λ e. (omega (arith, most, after.0), after.1))
      (λ e. (omega (arith, most, after.0), (refl, after.1)))

print_orders-Within :
    (price timestamp : ℕ) (addresses : List ℕ) (orders : Orders) (remaining : ℕ)
    → Within price remaining (print_orders price timestamp addresses orders remaining)
unfolding print_orders sum_by
print_orders-Within price timestamp [] orders remaining = (omega arith, tt)
print_orders-Within price timestamp (a ∷ addresses) orders remaining =
    print_then-Within (λ left more. print_orders price timestamp addresses left more) price
      timestamp a (match_order false remaining (order_at orders a)) orders remaining
      (λ left more. print_orders-Within price timestamp addresses left more)
      (λ o quantity h. match_order-most false remaining quantity (order_at orders a) o h)

abbrev InPath : TradeSide → ℕ → LevelQueue → Type 0
InPath side limit level = AsGood side limit level.price

all_at :
    (side : TradeSide) (limit price : ℕ) (fills : List Fill)
    → AsGood side limit price
    → All (λ f. f.fill_price ≡ price) fills
    → All (λ f. AsGood side limit f.fill_price) fills
all_at side limit price [] p a = tt
all_at side limit price (f ∷ fills) p a = (rw a.0 p, all_at side limit price fills p a.1)

print_levels_total :
    (side : TradeSide) (limit timestamp : ℕ) (levels : List LevelQueue) (b : OrderBook)
    (remaining : ℕ)
    → All (InPath side limit) levels
    → let e = print_levels side timestamp levels b remaining in
      (filled_total e.fills + e.remaining ≤ remaining)
      × All (λ f. AsGood side limit f.fill_price) e.fills
unfolding print_levels sum_by
print_levels_total side limit timestamp [] b remaining p = (omega arith, tt)
print_levels_total side limit timestamp (level ∷ levels) b remaining p =
    let swept = print_orders level.price timestamp level.orders b.orders remaining in
    let b' = prune (opposite side) level.ticks (record b { orders = swept.orders }) in
    let rest = print_levels side timestamp levels b' swept.remaining in
    let first = print_orders-Within level.price timestamp level.orders b.orders remaining in
    let others = print_levels_total side limit timestamp levels b' swept.remaining p.1 in
    let both = sum_fills-append swept.fills rest.fills in
    if_both
      (λ (e : Execution).
        (filled_total e.fills + e.remaining ≤ remaining)
        × All (λ f. AsGood side limit f.fill_price) e.fills)
      (leb remaining eps) (λ h. (omega arith, tt))
      (λ h. (
        omega (arith, both, first.0, others.0),
        All-append (λ f. AsGood side limit f.fill_price) swept.fills rest.fills
            (all_at side limit level.price swept.fills p.0 first.1) others.1,
      ))

path-InPath :
    (tick ticks : ℕ) (side : TradeSide) (level : LevelQueue)
    → OnGrid tick level
    → in_path side ticks level ≡ true
    → InPath side (from_ticks tick ticks) level
unfolding in_path
path-InPath tick ticks buy level g h = rw g (times level.ticks ticks tick (ground arith))
path-InPath tick ticks sell level g h = rw g (times ticks level.ticks tick (ground arith))

path-All :
    (tick ticks : ℕ) (side : TradeSide) (levels : List LevelQueue)
    → All (OnGrid tick) levels
    → All (InPath side (from_ticks tick ticks)) (select_where (in_path side ticks) levels)
unfolding select_where
path-All tick ticks side [] g = tt
path-All tick ticks side (level ∷ levels) g = elim (Bool-cases (in_path side ticks level)) [
  | inl e ↦ rw e (path-InPath tick ticks side level g.0 e, path-All tick ticks side levels g.1)
  | inr e ↦ rw e (path-All tick ticks side levels g.1)
]

-- A trade that the feed prints fills paper orders for at most its size in all, and none at a price
-- beyond the print on the grid, where the levels that it meets have the prices of their ticks.
pub print_bounded :
    (b : OrderBook) (event : BookEvent)
    → All (OnGrid b.tick_size) (side_of (opposite event.side) b)
    → (filled_total (apply_print b event).1 ≤ event.size)
      × All
          (λ f.
            AsGood event.side
              (from_ticks b.tick_size (to_ticks b.tick_size event.price))
              f.fill_price)
          (apply_print b event).1
unfolding apply_print
print_bounded b event g =
    let ticks = to_ticks b.tick_size event.price in
    let levels = walked event.side (side_of (opposite event.side) b) in
    let seen : OrderBook = record b {
      last_trade_price = some (from_ticks b.tick_size ticks);
      last_trade_size = some event.size;
    } in
    let total =
      print_levels_total event.side (from_ticks b.tick_size ticks) event.timestamp
        (select_where (in_path event.side ticks) levels) seen event.size
        (path-All b.tick_size ticks event.side levels
          (walked-All (OnGrid b.tick_size) event.side (side_of (opposite event.side) b) g)) in
    (omega (arith, total.0), total.1)
