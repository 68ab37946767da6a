-- ===== src/Engine/Immediate.antt =====
-- Orders that are not to rest: market orders, and limit orders that are immediate-or-cancel or
-- fill-or-kill (backend/services/matching_engine.py).
use quantumsentinel_web.Prelude.{
  ℕ, ◌+◌, ◌<◌, ◌≤◌, ◌≡◌, ◌⊎◌, inl, inr, refl, true, ◌&&◌, ltb, leb, Option, none, some, List, [],
  ◌∷◌, arith, if_both, sum_by, ap, ◌∙◌,
}
use quantumsentinel_web.Book.{
  OrderType, market, limit, stop, stop_limit, accepted, filled, cancelled, rejected, paper, Order,
  eps, remaining_quantity, record_fill, Fill,
}
use quantumsentinel_web.Book.Levels.{OrderBook}
use quantumsentinel_web.Book.Match.{consume_liquidity, filled_total}
use quantumsentinel_web.Book.Match.Bounds.{filled_at_most}
use quantumsentinel_web.Engine.{
  MatchingEngine, Handled, close, with_status, take_fills, take, finish_market,
  execute_market_order, is_immediate, finish_limit, execute_limit_order, route, logged,
  submit_unless, submit_order, is_marketable, available, is_fok, rejection,
}

take_fills-quantity :
    (now : ℕ) (fills : List Fill) (o : Order) → (take_fills now fills o).0.quantity ≡ o.quantity
unfolding take_fills record_fill
take_fills-quantity now [] o = refl
take_fills-quantity now (f ∷ fills) o =
    take_fills-quantity now fills (record_fill f.fill_price f.fill_quantity now o)

take_fills-time_in_force :
    (now : ℕ) (fills : List Fill) (o : Order)
    → (take_fills now fills o).0.time_in_force ≡ o.time_in_force
unfolding take_fills record_fill
take_fills-time_in_force now [] o = refl
take_fills-time_in_force now (f ∷ fills) o =
    take_fills-time_in_force now fills (record_fill f.fill_price f.fill_quantity now o)

-- What the fills add up to is what the order has got more.
take_fills-filled :
    (now : ℕ) (fills : List Fill) (o : Order)
    → (take_fills now fills o).0.filled_quantity ≡ o.filled_quantity + filled_total fills
unfolding take_fills record_fill sum_by
take_fills-filled now [] o = omega arith
take_fills-filled now (f ∷ fills) o =
    let others = take_fills-filled now fills (record_fill f.fill_price f.fill_quantity now o) in
    omega arith

take_fills-status :
    (now : ℕ) (f : Fill) (fills : List Fill) (o : Order)
    → leb (remaining_quantity (take_fills now (f ∷ fills) o).0) eps ≡ true
    → (take_fills now (f ∷ fills) o).0.status ≡ filled
unfolding take_fills record_fill
take_fills-status now f [] o h = rw h refl
take_fills-status now f (g ∷ fills) o h =
    take_fills-status now g fills (record_fill f.fill_price f.fill_quantity now o) h

-- An order with nothing left is filled.
abbrev Settled : Order → Type 0
Settled o = leb (remaining_quantity o) eps ≡ true → o.status ≡ filled

take_fills-Settled :
    (now : ℕ) (fills : List Fill) (o : Order)
    → eps < remaining_quantity o
    → Settled (take_fills now fills o).0
unfolding take_fills
take_fills-Settled now [] o l h = absurd (ground arith)
take_fills-Settled now (f ∷ fills) o l h = take_fills-status now f fills o h

abbrev pub Ended : Order → Type 0
Ended o = (o.status ≡ filled) ⊎ ((o.status ≡ cancelled) ⊎ (o.status ≡ rejected))

finish_market-Ended : (now : ℕ) (h : Handled) → Settled h.order → Ended (finish_market now h).order
unfolding finish_market close
finish_market-Ended now h s =
    if_both (λ (r : Handled). Ended r.order) (leb h.order.filled_quantity eps) (λ e. inr (inr refl))
      (λ e.
        if_both (λ (r : Handled). Ended r.order) (ltb eps (remaining_quantity h.order))
          (λ d. inr (inl refl)) (λ d. inl (s (ground arith))))

finish_limit-Ended :
    (now : ℕ) (h : Handled)
    → Settled h.order
    → is_immediate h.order.time_in_force ≡ true
    → Ended (finish_limit now h).order
unfolding finish_limit close
finish_limit-Ended now h s i =
    if_both (λ (r : Handled). Ended r.order) (leb (remaining_quantity h.order) eps) (λ e. inl (s e))
      (λ e. rw i (inr (inl refl)))

market-Ended :
    (b : OrderBook) (o : Order) (now : ℕ)
    → eps < remaining_quantity o
    → Ended (execute_market_order b o now).order
unfolding execute_market_order take
market-Ended b o now l =
    finish_market-Ended now (take b o now none) (
      take_fills-Settled now (consume_liquidity b o.side (remaining_quantity o) now none true).1 o
        l)

limit-Ended :
    (b : OrderBook) (o : Order) (now : ℕ)
    → eps < remaining_quantity o
    → is_immediate o.time_in_force ≡ true
    → Ended (execute_limit_order b o now).order
unfolding execute_limit_order close take
limit-Ended b o now l i =
    let fills = (consume_liquidity b o.side (remaining_quantity o) now o.limit_price true).1 in
    if_both (λ (r : Handled). Ended r.order)
      (is_fok o.time_in_force && ltb (available b o.side o.limit_price + eps) o.quantity)
      (λ e. inr (inr refl))
      (λ e.
        if_both (λ (h : Handled). Ended (finish_limit now h).order) (is_marketable b o)
          (λ m.
            finish_limit-Ended now (take b o now o.limit_price) (take_fills-Settled now fills o l)
              (ap is_immediate (take_fills-time_in_force now fills o) ∙ i))
          (λ m.
            finish_limit-Ended now record { book = b; order = o; events = [] }
              (λ h. absurd (ground arith)) i))

-- The order is not to rest.
abbrev pub Immediate : Order → Type 0
Immediate o =
    (o.order_type ≡ market) ⊎ ((o.order_type ≡ limit) × (is_immediate o.time_in_force ≡ true))

route-Ended :
    (type : OrderType) (e : MatchingEngine) (o : Order) (now : ℕ)
    → (type ≡ market) ⊎ ((type ≡ limit) × (is_immediate o.time_in_force ≡ true))
    → eps < remaining_quantity o
    → Ended (route type e o now).1.order
unfolding route
route-Ended market e o now i l = market-Ended e.book o now l
route-Ended limit e o now (inl i) l = absurd (ground arith)
route-Ended limit e o now (inr i) l = limit-Ended e.book o now l i.1
route-Ended stop e o now i l = absurd (ground arith)
route-Ended stop_limit e o now i l = absurd (ground arith)

submit_unless-Ended :
    (reason : Option ℕ) (e : MatchingEngine) (o : Order) (now : ℕ)
    → Immediate o
    → eps < remaining_quantity o
    → Ended (submit_unless reason e o now).1.order
unfolding submit_unless logged
submit_unless-Ended (some reason) e o now i l = inr (inr refl)
submit_unless-Ended none e o now i l = route-Ended o.order_type e (with_status accepted o) now i l

-- A market order, and a limit order that is immediate-or-cancel or fill-or-kill, ends with its
-- submission: it is filled, cancelled or rejected. More than 1e-9 of it is to be filled.
pub Immediate-ends :
    (e : MatchingEngine) (o : Order) (now : ℕ)
    → Immediate o
    → eps < remaining_quantity o
    → Ended (submit_order e o now).1.order
unfolding submit_order
Immediate-ends e o now i l =
    submit_unless-Ended (rejection e.book.tick_size (record o { owner = paper })) e
      (record o { owner = paper }) now i l

-- What an order is filled more by what it takes from the book is the sum of its fills, and an order
-- that was not filled beyond its quantity is not filled beyond it then.
pub take_exact :
    (b : OrderBook) (o : Order) (now : ℕ) (limit_price : Option ℕ)
    → o.filled_quantity ≤ o.quantity
    → let fills = (consume_liquidity b o.side (remaining_quantity o) now limit_price true).1 in
      ((take b o now limit_price).order.filled_quantity ≡ o.filled_quantity + filled_total fills)
      × ((take b o now limit_price).order.filled_quantity
          ≤ (take b o now limit_price).order.quantity)
unfolding take
take_exact b o now limit_price h =
    let fills = (consume_liquidity b o.side (remaining_quantity o) now limit_price true).1 in
    let got = take_fills-filled now fills o in
    let asked = take_fills-quantity now fills o in
    let most = filled_at_most b o.side (remaining_quantity o) now limit_price true in
    (got, omega arith)
