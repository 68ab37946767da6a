-- ===== src/Book/Match/Maker.antt =====
-- An aggressor and the resting paper orders (backend/services/order_book.py: consume_liquidity).
use quantumsentinel_web.Prelude.{
  ℕ, ◌+◌, ◌<◌, inl, inr, Bool-cases, ◌-◌, ◌≡◌, refl, sym, ◌∙◌, ap, true, ◌==◌, if◌then◌else◌,
  Option, none, some, List, [], ◌∷◌, arith, if_both,
}
use quantumsentinel_web.Book.{
  TradeSide, buy, sell, OrderStatus, is_feed, Order, record_fill, Fill, Orders, count_orders,
  order_at, update_at, LevelQueue, size_of, positioned, refresh_queue_positions,
}
use quantumsentinel_web.Book.Levels.{
  OrderBook, find_level, prune_level, prune, with_side, side_of, kept_orders,
}
use quantumsentinel_web.Book.Match.{
  opposite, Swept, matched, match_order, fill_then, consume_orders, stops, Execution,
  consume_levels, walked, traded, limit_of, consume_liquidity,
}

-- What an execution changes of a paper order.
pub record PaperState : Type 0 where
  pub order_id : ℕ
  pub quantity : ℕ
  pub filled_quantity : ℕ
  pub status : OrderStatus

abbrev pub paper_state : Order → Option PaperState
paper_state o =
    if is_feed o.owner
    then none
    else some record {
      order_id = o.order_id;
      quantity = o.quantity;
      filled_quantity = o.filled_quantity;
      status = o.status;
    }

unfoldable pub paper_states : Orders → List (Option PaperState)
paper_states [] = []
paper_states (o ∷ orders) = paper_state o ∷ paper_states orders

order_at-lt :
    (n : ℕ) (orders : Orders) (o : Order) → order_at orders n ≡ some o → n < count_orders orders
unfolding order_at count_orders
order_at-lt n [] o h = cc
order_at-lt n (p ∷ orders) o h = ground (arith, order_at-lt n orders o)

states-update_at :
    (n : ℕ) (f : Order → Order) (orders : Orders)
    → ((o : Order) → order_at orders n ≡ some o → paper_state (f o) ≡ paper_state o)
    → paper_states (update_at n f orders) ≡ paper_states orders
unfolding paper_states update_at order_at
states-update_at n f [] k = refl
states-update_at n f (o ∷ orders) k = elim (Bool-cases (count_orders orders == n)) [
  | inl e ↦
      rw
        (
          e,
          k o (rw e refl),
          states-update_at n f orders
              (λ p h. let below = order_at-lt n orders p h in absurd (ground arith)),
        )
        refl
  | inr e ↦ rw (e, states-update_at n f orders (λ p h. k p (rw e h))) refl
]

states-positioned : (ahead : ℕ) (o : Order) → paper_state (positioned ahead o) ≡ paper_state o
states-positioned ahead o = elim (Bool-cases (is_feed o.owner)) [
  | inl e ↦ rw (e, e) refl
  | inr e ↦ rw (e, e) refl
]

states-refresh :
    (ahead : ℕ) (addresses : List ℕ) (orders : Orders)
    → paper_states (refresh_queue_positions ahead addresses orders) ≡ paper_states orders
unfolding refresh_queue_positions
states-refresh ahead [] orders = refl
states-refresh ahead (a ∷ addresses) orders =
    states-refresh (ahead + size_of (order_at orders a)) addresses
      (update_at a (positioned ahead) orders)
    ∙ states-update_at a (positioned ahead) orders (λ o e. states-positioned ahead o)

states-prune_level :
    (side : TradeSide) (b : OrderBook) (found : Option LevelQueue)
    → paper_states (prune_level side b found).orders ≡ paper_states b.orders
unfolding prune_level with_side
states-prune_level side b none = refl
states-prune_level buy b (some level) = states-refresh 0 (kept_orders b.orders level) b.orders
states-prune_level sell b (some level) = states-refresh 0 (kept_orders b.orders level) b.orders

states-prune :
    (side : TradeSide) (ticks : ℕ) (b : OrderBook)
    → paper_states (prune side ticks b).orders ≡ paper_states b.orders
unfolding prune
states-prune side ticks b = states-prune_level side b (find_level ticks (side_of side b))

fill_of_feed :
    (price quantity timestamp : ℕ) (o : Order)
    → is_feed o.owner ≡ true
    → paper_state (record_fill price quantity timestamp o) ≡ paper_state o
unfolding record_fill
fill_of_feed price quantity timestamp o h = rw h refl

matched-feed :
    (remaining quantity : ℕ) (found : Option Order) (o : Order)
    → match_order true remaining found ≡ some (o, quantity)
    → (found ≡ some o) × (is_feed o.owner ≡ true)
unfolding match_order matched
matched-feed remaining quantity none o h = cc
matched-feed remaining quantity (some p) o h = ground arith

states-fill_then :
    (rest : Orders → ℕ → Swept) (price timestamp address : ℕ) (found : Option (Order × ℕ))
    (orders : Orders) (remaining : ℕ)
    → ((left : Orders) (more : ℕ) → paper_states (rest left more).orders ≡ paper_states left)
    → ((o : Order) (quantity : ℕ)
        → found ≡ some (o, quantity)
        → (order_at orders address ≡ some o) × (is_feed o.owner ≡ true))
    → paper_states (fill_then rest price timestamp address found orders remaining).orders
      ≡ paper_states orders
unfolding fill_then
states-fill_then rest price timestamp address none orders remaining k m = k orders remaining
states-fill_then rest price timestamp address (some (o, quantity)) orders remaining k m =
    let (at, of_feed) = m o quantity refl in
    k (update_at address (record_fill price quantity timestamp) orders) (remaining - quantity)
    ∙ states-update_at address (record_fill price quantity timestamp) orders (λ p h.
      fill_of_feed price quantity timestamp p
        (ap (λ q. is_feed q.owner) (sym (same at h)) ∙ of_feed))
  where
    same : {p : Order} → order_at orders address ≡ some o → order_at orders address ≡ some p → o ≡ p
    same at h = ground arith

states-consume_orders :
    (price timestamp : ℕ) (addresses : List ℕ) (orders : Orders) (remaining : ℕ)
    → paper_states (consume_orders true price timestamp addresses orders remaining).orders
      ≡ paper_states orders
unfolding consume_orders
states-consume_orders price timestamp [] orders remaining = refl
states-consume_orders price timestamp (a ∷ addresses) orders remaining =
    states-fill_then (λ left more. consume_orders true price timestamp addresses left more) price
      timestamp a (match_order true remaining (order_at orders a)) orders remaining
      (λ left more. states-consume_orders price timestamp addresses left more)
      (λ o quantity h. matched-feed remaining quantity (order_at orders a) o h)

states-consume_levels :
    (side : TradeSide) (limit : Option ℕ) (timestamp : ℕ) (levels : List LevelQueue) (b : OrderBook)
    (remaining : ℕ)
    → paper_states (consume_levels true side limit timestamp levels b remaining).book.orders
      ≡ paper_states b.orders
unfolding consume_levels
states-consume_levels side limit timestamp [] b remaining = refl
states-consume_levels side limit timestamp (level ∷ levels) b remaining =
    let swept = consume_orders true level.price timestamp level.orders b.orders remaining in
    let b' = prune (opposite side) level.ticks (record b { orders = swept.orders }) in
    if_both (λ (e : Execution). paper_states e.book.orders ≡ paper_states b.orders)
      (stops side limit remaining level) (λ h. refl)
      (λ h.
        states-consume_levels side limit timestamp levels b' swept.remaining
        ∙ (states-prune (opposite side) level.ticks (record b { orders = swept.orders })
            ∙ states-consume_orders level.price timestamp level.orders b.orders remaining))

states-traded : (fills : List Fill) (b : OrderBook) → (traded fills b).orders ≡ b.orders
unfolding traded
states-traded [] b = refl
states-traded (f ∷ fills) b = refl

-- An aggressor that skips paper orders executes against none of them: of every resting paper order the
-- quantity, what is filled of it and its status stay as they are.
pub no_self_trade :
    (b : OrderBook) (side : TradeSide) (quantity timestamp : ℕ) (limit_price : Option ℕ)
    → paper_states (consume_liquidity b side quantity timestamp limit_price true).0.orders
      ≡ paper_states b.orders
unfolding consume_liquidity
no_self_trade b side quantity timestamp limit_price =
    let levels = walked side (side_of (opposite side) b) in
    let e = consume_levels true side (limit_of b limit_price) timestamp levels b quantity in
    ap paper_states (states-traded e.fills e.book)
    ∙ states-consume_levels side (limit_of b limit_price) timestamp levels b quantity
