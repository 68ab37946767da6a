-- ===== src/Book/FeedEvents.antt =====
-- The order of the levels under the events of the feed (backend/services/order_book.py).
use quantumsentinel_web.Prelude.{
  ℕ, refl, Bool, true, false, Option, none, some, List, [], ◌∷◌, if_both, update_where, ltb, leb,
  ◌+◌, ◌-◌, if◌then◌else◌, Option-cases, inl, inr,
}
use quantumsentinel_web.Book.{
  TradeSide, Order, order_at, update_at, LevelQueue, add_to_level, remove_id, eps,
  remaining_quantity, market_size,
}
use quantumsentinel_web.Book.Levels.{
  OrderBook, to_ticks, from_ticks, side_of, at_ticks, prune, add_order,
}
use quantumsentinel_web.Book.Match.{opposite, Execution}
use quantumsentinel_web.Book.Priority.{
  IsSorted, side-Ascends, with_side-IsSorted, prune-IsSorted, Ascends-update,
}
use quantumsentinel_web.Book.Event.{
  BookEventType, adding, cancelling, modifying, printing, BookEvent,
}
use quantumsentinel_web.Book.Print.{print_orders, print_levels, apply_print}
use quantumsentinel_web.Book.Feed.{
  feed_order, apply_add, known, with_quantity, requeue, change_order, change_level, apply_change,
  apply_as,
}
use quantumsentinel_web.Book.Operations.{rest_limit-IsSorted}

print_levels-IsSorted :
    (side : TradeSide) (timestamp : ℕ) (levels : List LevelQueue) (b : OrderBook) (remaining : ℕ)
    → IsSorted b
    → IsSorted (print_levels side timestamp levels b remaining).book
unfolding print_levels
print_levels-IsSorted side timestamp [] b remaining s = s
print_levels-IsSorted side timestamp (level ∷ levels) b remaining s =
    let swept = print_orders level.price timestamp level.orders b.orders remaining in
    let b' = record b { orders = swept.orders } in
    if_both (λ (e : Execution). IsSorted e.book) (leb remaining eps) (λ h. s)
      (λ h.
        print_levels-IsSorted side timestamp levels (prune (opposite side) level.ticks b')
          swept.remaining (prune-IsSorted (opposite side) level.ticks b' s))

pub add_order-IsSorted :
    (b : OrderBook) (o : Order) (timestamp : ℕ) → IsSorted b → IsSorted (add_order b o timestamp)
unfolding add_order
add_order-IsSorted b o timestamp s = rest_limit-IsSorted b o o.limit_price timestamp s

apply_add-IsSorted :
    (b : OrderBook) (event : BookEvent) (drawn : ℕ)
    → IsSorted b
    → IsSorted (apply_add b event drawn)
unfolding apply_add
apply_add-IsSorted b event drawn s =
    let o =
      feed_order event drawn event.size
        (from_ticks b.tick_size (to_ticks b.tick_size event.price)) in
    if_both IsSorted (ltb eps event.size) (λ e. add_order-IsSorted b o event.timestamp s) (λ e. s)

requeue-IsSorted :
    (b : OrderBook) (side : TradeSide) (level : LevelQueue) (order_id a : ℕ)
    → IsSorted b
    → IsSorted (requeue b side level order_id a)
unfolding requeue
requeue-IsSorted b side level order_id a s =
    let f = λ (l : LevelQueue).
      add_to_level a (record l { orders = remove_id b.orders order_id l.orders }) in
    with_side-IsSorted side (update_where (at_ticks level.ticks) f (side_of side b)) b
      (Ascends-update b.tick_size (at_ticks level.ticks) f (side_of side b) (λ l. (refl, refl))
        (side-Ascends side b s))
      s

change_order-IsSorted :
    (cancels : Bool) (b : OrderBook) (event : BookEvent) (level : LevelQueue) (a : ℕ)
    → IsSorted b
    → IsSorted (change_order cancels b event level a)
unfolding change_order
change_order-IsSorted cancels b event level a s = elim (Option-cases (order_at b.orders a)) [
  | inl e ↦ rw e s
  | inr (o, e) ↦ rw e (
      if_both IsSorted cancels (λ c. s)
        (λ c.
          if_both IsSorted (leb event.size (remaining_quantity o)) (λ d. s)
            (λ d.
              requeue-IsSorted
                (record b {
                  orders = update_at a (with_quantity (o.filled_quantity + event.size)) b.orders;
                })
                event.side level o.order_id a s)))
]

change_level-IsSorted :
    (portion : ℕ → ℕ → ℕ → ℕ) (cancels : Bool) (b : OrderBook) (event : BookEvent) (drawn : ℕ)
    (level : LevelQueue)
    → IsSorted b
    → IsSorted (change_level portion cancels b event drawn level)
unfolding change_level
change_level-IsSorted portion cancels b event drawn level s =
    let current = market_size b.orders level in
    let target = if cancels then current - event.size else event.size in
    if_both IsSorted (ltb target current) (λ e. s)
      (λ e.
        if_both IsSorted (ltb (current + eps) target)
          (λ f.
            add_order-IsSorted b (feed_order event drawn (target - current) level.price)
              event.timestamp s)
          (λ f. s))

apply_change-IsSorted :
    (portion : ℕ → ℕ → ℕ → ℕ) (cancels : Bool) (b : OrderBook) (event : BookEvent) (drawn : ℕ)
    (found : Option LevelQueue)
    → IsSorted b
    → IsSorted (apply_change portion cancels b event drawn found)
unfolding apply_change
apply_change-IsSorted portion cancels b event drawn none s =
    if_both IsSorted cancels (λ e. s) (λ e. apply_add-IsSorted b event drawn s)
apply_change-IsSorted portion cancels b event drawn (some level) s =
    elim (Option-cases (known b level event.order_id)) [
      | inl e ↦ rw e (
          prune-IsSorted event.side (to_ticks b.tick_size event.price) _
            (change_level-IsSorted portion cancels b event drawn level s))
      | inr (a, e) ↦ rw e (
          prune-IsSorted event.side (to_ticks b.tick_size event.price) _
            (change_order-IsSorted cancels b event level a s))
    ]

pub apply_as-IsSorted :
    (portion : ℕ → ℕ → ℕ → ℕ) (kind : BookEventType) (b : OrderBook) (event : BookEvent) (drawn : ℕ)
    → IsSorted b
    → IsSorted (apply_as portion kind b event drawn).0
unfolding apply_as apply_print
apply_as-IsSorted portion adding b event drawn s = apply_add-IsSorted b event drawn s
apply_as-IsSorted portion cancelling b event drawn s =
    apply_change-IsSorted portion true b event drawn _ s
apply_as-IsSorted portion modifying b event drawn s =
    apply_change-IsSorted portion false b event drawn _ s
apply_as-IsSorted portion printing b event drawn s =
    print_levels-IsSorted event.side event.timestamp _ _ event.size s
