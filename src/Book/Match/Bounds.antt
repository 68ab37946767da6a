-- ===== src/Book/Match/Bounds.antt =====
-- How much an aggressor gets (backend/services/order_book.py: consume_liquidity).
use quantumsentinel_web.Prelude.{
  ℕ, ◌+◌, ◌-◌, ◌≤◌, ◌≡◌, refl, Bool, Option, none, some, List, [], ◌∷◌, ◌++◌, arith, sum_by,
  if_both,
}
use quantumsentinel_web.Book.{
  TradeSide, Order, record_fill, Fill, Orders, order_at, update_at, LevelQueue,
}
use quantumsentinel_web.Book.Levels.{OrderBook, side_of, prune}
use quantumsentinel_web.Book.Match.{
  opposite, Swept, matched, match_order, fill_then, consume_orders, stops, Execution,
  consume_levels, walked, filled_total, limit_of, consume_liquidity,
}

pub match_order-most :
    (skip_paper : Bool) (remaining quantity : ℕ) (found : Option Order) (o : Order)
    → match_order skip_paper remaining found ≡ some (o, quantity)
    → quantity ≤ remaining
unfolding match_order matched
match_order-most skip_paper remaining quantity none o h = cc
match_order-most skip_paper remaining quantity (some p) o h = ground arith

pub sum_fills-append :
    (xs ys : List Fill) → filled_total (xs ++ ys) ≡ filled_total xs + filled_total ys
unfolding sum_by
sum_fills-append [] ys = omega arith
sum_fills-append (x ∷ xs) ys = ground (arith, sum_fills-append xs ys)

-- The loop neither loses nor makes quantity.
abbrev Conserves : ℕ → Swept → Type 0
Conserves remaining s = filled_total s.fills + s.remaining ≡ remaining

fill_then-Conserves :
    (rest : Orders → ℕ → Swept) (price timestamp address : ℕ) (found : Option (Order × ℕ))
    (orders : Orders) (remaining : ℕ)
    → ((left : Orders) (more : ℕ) → Conserves more (rest left more))
    → ((o : Order) (quantity : ℕ) → found ≡ some (o, quantity) → quantity ≤ remaining)
    → Conserves remaining (fill_then rest price timestamp address found orders remaining)
unfolding fill_then sum_by
fill_then-Conserves rest price timestamp address none orders remaining k m = k orders remaining
fill_then-Conserves rest price timestamp address (some (o, quantity)) orders remaining k m =
    let most = m o quantity refl in
    let after =
      k (update_at address (record_fill price quantity timestamp) orders) (remaining - quantity) in
    ground arith

consume_orders-Conserves :
    (skip_paper : Bool) (price timestamp : ℕ) (addresses : List ℕ) (orders : Orders) (remaining : ℕ)
    → Conserves remaining (consume_orders skip_paper price timestamp addresses orders remaining)
unfolding consume_orders sum_by
consume_orders-Conserves skip_paper price timestamp [] orders remaining = omega arith
consume_orders-Conserves skip_paper price timestamp (a ∷ addresses) orders remaining =
    fill_then-Conserves (λ left more. consume_orders skip_paper price timestamp addresses left more)
      price timestamp a (match_order skip_paper remaining (order_at orders a)) orders remaining
      (λ left more. consume_orders-Conserves skip_paper price timestamp addresses left more)
      (λ o quantity h. match_order-most skip_paper remaining quantity (order_at orders a) o h)

consume_levels_total :
    (skip_paper : Bool) (side : TradeSide) (limit : Option ℕ) (timestamp : ℕ)
    (levels : List LevelQueue) (b : OrderBook) (remaining : ℕ)
    → let e = consume_levels skip_paper side limit timestamp levels b remaining in
      filled_total e.fills + e.remaining ≡ remaining
unfolding consume_levels sum_by
consume_levels_total skip_paper side limit timestamp [] b remaining = omega arith
consume_levels_total skip_paper side limit timestamp (level ∷ levels) b remaining =
    let swept = consume_orders skip_paper level.price timestamp level.orders b.orders remaining in
    let b' = prune (opposite side) level.ticks (record b { orders = swept.orders }) in
    let rest = consume_levels skip_paper side limit timestamp levels b' swept.remaining in
    let first =
      consume_orders-Conserves skip_paper level.price timestamp level.orders b.orders remaining in
    let others = consume_levels_total skip_paper side limit timestamp levels b' swept.remaining in
    let both = sum_fills-append swept.fills rest.fills in
    if_both (λ (e : Execution). filled_total e.fills + e.remaining ≡ remaining)
      (stops side limit remaining level) (λ h. omega arith) (λ h. omega arith)

-- An aggressor gets at most the quantity that it asked for.
pub filled_at_most :
    (b : OrderBook) (side : TradeSide) (quantity timestamp : ℕ) (limit_price : Option ℕ)
    (skip_paper : Bool)
    → filled_total (consume_liquidity b side quantity timestamp limit_price skip_paper).1 ≤ quantity
unfolding consume_liquidity
filled_at_most b side quantity timestamp limit_price skip_paper =
    let total =
      consume_levels_total skip_paper side (limit_of b limit_price) timestamp
        (walked side (side_of (opposite side) b)) b quantity in
    omega arith
