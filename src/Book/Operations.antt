-- ===== src/Book/Operations.antt =====
-- The order of the levels under each operation of the book (backend/services/order_book.py).
use quantumsentinel_web.Prelude.{
  ℕ, refl, Bool, true, false, not, Option, none, some, List, [], ◌∷◌, if_both, update_where,
}
use quantumsentinel_web.Book.{
  TradeSide, Order, Fill, order_at, update_at, LevelQueue, add_to_level, remove_id, is_active,
  count_orders,
}
use quantumsentinel_web.Book.Levels.{
  OrderBook, to_ticks, from_ticks, side_of, at_ticks, create_level, prune, rest_at, cancel_at,
  cancel_found, cancelled_order, with_side,
}
use quantumsentinel_web.Book.Match.{
  opposite, Execution, stops, consume_orders, consume_levels, traded,
}
use quantumsentinel_web.Book.Priority.{
  IsSorted, side-Ascends, with_side-IsSorted, prune-IsSorted, Ascends-create, Ascends-update,
}

abbrev levels_with : OrderBook → TradeSide → ℕ → List LevelQueue
levels_with b side ticks =
    create_level record { price = from_ticks b.tick_size ticks; ticks = ticks; orders = [] }
      (side_of side b)

rest_at-IsSorted :
    (b : OrderBook) (o : Order) (ticks timestamp : ℕ)
    → IsSorted b
    → IsSorted (rest_at b o ticks timestamp)
unfolding rest_at
rest_at-IsSorted b o ticks timestamp s =
    with_side-IsSorted o.side
      (update_where (at_ticks ticks) (add_to_level (count_orders b.orders))
        (levels_with b o.side ticks))
      _
      (Ascends-update b.tick_size (at_ticks ticks) (add_to_level (count_orders b.orders))
        (levels_with b o.side ticks) (λ level. (refl, refl))
        (Ascends-create b.tick_size
          record { price = from_ticks b.tick_size ticks; ticks = ticks; orders = [] }
          (side_of o.side b) refl (side-Ascends o.side b s)))
      s

pub rest_limit-IsSorted :
    (b : OrderBook) (o : Order) (limit_price : Option ℕ) (timestamp : ℕ)
    → IsSorted b
    → IsSorted (elim limit_price [
      | none ↦ b
      | some price ↦ rest_at b o (to_ticks b.tick_size price) timestamp
    ])
rest_limit-IsSorted b o none timestamp s = s
rest_limit-IsSorted b o (some price) timestamp s =
    rest_at-IsSorted b o (to_ticks b.tick_size price) timestamp s

cancel_at-IsSorted :
    (b : OrderBook) (order_id address : ℕ) (o : Order) (ticks : ℕ)
    → IsSorted b
    → IsSorted (cancel_at b order_id address o ticks)
unfolding cancel_at
cancel_at-IsSorted b order_id address o ticks s =
    let orders = update_at address cancelled_order b.orders in
    let b' = record b { orders = orders } in
    let removed =
      λ (level : LevelQueue). record level { orders = remove_id orders order_id level.orders } in
    let levels = update_where (at_ticks ticks) removed (side_of o.side b) in
    prune-IsSorted o.side ticks (with_side o.side levels b') (
      with_side-IsSorted o.side levels b'
        (Ascends-update b.tick_size (at_ticks ticks) removed (side_of o.side b)
          (λ level. (refl, refl)) (side-Ascends o.side b s))
        s)

cancel_limit-IsSorted :
    (b : OrderBook) (order_id address : ℕ) (o : Order) (limit_price : Option ℕ)
    → IsSorted b
    → IsSorted
        (elim limit_price as (λ x. OrderBook × Bool) [
          | none ↦ (b, false)
          | some price ↦ (cancel_at b order_id address o (to_ticks b.tick_size price), true)
        ]).0
cancel_limit-IsSorted b order_id address o none s = s
cancel_limit-IsSorted b order_id address o (some price) s =
    cancel_at-IsSorted b order_id address o (to_ticks b.tick_size price) s

cancel_found-IsSorted :
    (b : OrderBook) (order_id address : ℕ) (found : Option Order)
    → IsSorted b
    → IsSorted (cancel_found b order_id address found).0
unfolding cancel_found
cancel_found-IsSorted b order_id address none s = s
cancel_found-IsSorted b order_id address (some o) s =
    if_both (λ (r : OrderBook × Bool). IsSorted r.0) (not (is_active o.status)) (λ e. s)
      (λ e. cancel_limit-IsSorted b order_id address o o.limit_price s)

pub cancel_address-IsSorted :
    (b : OrderBook) (order_id : ℕ) (address : Option ℕ)
    → IsSorted b
    → IsSorted
        (elim address as (λ x. OrderBook × Bool) [
          | none ↦ (b, false)
          | some a ↦ cancel_found b order_id a (order_at b.orders a)
        ]).0
cancel_address-IsSorted b order_id none s = s
cancel_address-IsSorted b order_id (some a) s =
    cancel_found-IsSorted b order_id a (order_at b.orders a) s

pub consume_levels-IsSorted :
    (skip_paper : Bool) (side : TradeSide) (limit : Option ℕ) (timestamp : ℕ)
    (levels : List LevelQueue) (b : OrderBook) (remaining : ℕ)
    → IsSorted b
    → IsSorted (consume_levels skip_paper side limit timestamp levels b remaining).book
unfolding consume_levels
consume_levels-IsSorted skip_paper side limit timestamp [] b remaining s = s
consume_levels-IsSorted skip_paper side limit timestamp (level ∷ levels) b remaining s =
    let swept = consume_orders skip_paper level.price timestamp level.orders b.orders remaining in
    let b' = record b { orders = swept.orders } in
    if_both (λ (e : Execution). IsSorted e.book) (stops side limit remaining level) (λ h. s)
      (λ h.
        consume_levels-IsSorted skip_paper side limit timestamp levels
          (prune (opposite side) level.ticks b') swept.remaining
          (prune-IsSorted (opposite side) level.ticks b' s))

pub traded-IsSorted : (fills : List Fill) (b : OrderBook) → IsSorted b → IsSorted (traded fills b)
unfolding traded
traded-IsSorted [] b s = s
traded-IsSorted (f ∷ fills) b s = s
