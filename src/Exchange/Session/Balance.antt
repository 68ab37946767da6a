-- ===== src/Exchange/Session/Balance.antt =====
-- The cash and the position of the paper exchange beside its fills.
use quantumsentinel_web.Prelude.{
  ℕ, zero, suc, ◌+◌, ◌*◌, ◌≡◌, refl, arith, Bool, ◌==◌, if_both, Option, none, some, List, [], ◌∷◌,
  ◌++◌, sum_by, Option-cases, inl, inr, first_where, length, ◌⊎◌, max, select_where,
}
use quantumsentinel_web.Prelude.Int.{ℤ, pos, negsuc, ◌+ℤ◌, ◌-ℤ◌, pos_part, neg_part}
use quantumsentinel_web.Book.{TradeSide, buy, sell, Fill, Order}
use quantumsentinel_web.Book.Event.{BookEvent}
use quantumsentinel_web.Engine.{FillDetails, ExchangeEvent, submit_order}
use quantumsentinel_web.Engine.Stops.{expire_orders, is_past}
use quantumsentinel_web.Engine.Feed.{on_market_event}
use quantumsentinel_web.Exchange.Position.{signed, apply_fill-quantity}
use quantumsentinel_web.Exchange.{PaperExchange, is_market, estimate_market_buy_cost}
use quantumsentinel_web.Exchange.Session.{
  is_fill_event, settle_fill, settle_details, log_event, settle, put_history, put_all, activate,
  pretrade_reject_reason, with_estimate, launch, or_now, sent, with_expiring, Ticket, order_for,
  submit, cancel_order, earliest, is_due, release_one, release, expire, advance_to, feed_event,
  popped, cancel_active, expired_stops,
}

abbrev pub bought_for : Fill → ℕ
bought_for f = elim f.side [ buy ↦ f.fill_price * f.fill_quantity | sell ↦ 0 ]

abbrev pub sold_for : Fill → ℕ
sold_for f = elim f.side [ buy ↦ 0 | sell ↦ f.fill_price * f.fill_quantity ]

abbrev pub bought : Fill → ℕ
bought f = elim f.side [ buy ↦ f.fill_quantity | sell ↦ 0 ]

abbrev pub sold : Fill → ℕ
sold f = elim f.side [ buy ↦ 0 | sell ↦ f.fill_quantity ]

-- What was bought has been paid from the initial cash and is held, and what was sold the other way.
abbrev pub Balanced : ℤ → PaperExchange → Type 0
Balanced initial x =
    (x.cash +ℤ pos (sum_by bought_for x.fill_history)
      ≡ initial +ℤ pos (sum_by sold_for x.fill_history))
    × (x.position.quantity +ℤ pos (sum_by sold x.fill_history) ≡ pos (sum_by bought x.fill_history))

sum_by-append :
    (g : Fill → ℕ) (xs : List Fill) (f : Fill) → sum_by g (xs ++ f ∷ []) ≡ sum_by g xs + g f
unfolding sum_by
sum_by-append g [] f = omega arith
sum_by-append g (x ∷ xs) f = omega (arith, sum_by-append g xs f)

parts : (a b : ℤ) → a ≡ b → pos_part a + neg_part b ≡ pos_part b + neg_part a
parts a b e = ground arith

paid :
    (cash initial : ℤ) (b s n : ℕ)
    → cash +ℤ pos b ≡ initial +ℤ pos s
    → (cash -ℤ pos n) +ℤ pos (b + n) ≡ initial +ℤ pos (s + 0)
unfolding ◌+ℤ◌ ◌-ℤ◌
paid (pos c) (pos i) b s n e = ground arith
paid (pos c) (negsuc i) b s n e = ground arith
paid (negsuc c) (pos i) b s n e = ground arith
paid (negsuc c) (negsuc i) b s n e = ground arith

received :
    (cash initial : ℤ) (b s n : ℕ)
    → cash +ℤ pos b ≡ initial +ℤ pos s
    → (cash +ℤ pos n) +ℤ pos (b + 0) ≡ initial +ℤ pos (s + n)
unfolding ◌+ℤ◌
received (pos c) (pos i) b s n e = ground arith
received (pos c) (negsuc i) b s n e = ground arith
received (negsuc c) (pos i) b s n e = ground arith
received (negsuc c) (negsuc i) b s n e = ground arith

held_buy :
    (q : ℤ) (b s n : ℕ) → q +ℤ pos s ≡ pos b → (q +ℤ signed buy n) +ℤ pos (s + 0) ≡ pos (b + n)
unfolding ◌+ℤ◌
held_buy (pos c) b s n e = ground arith
held_buy (negsuc c) b s n e = ground arith

held_sell :
    (q : ℤ) (b s n : ℕ) → q +ℤ pos s ≡ pos b → (q +ℤ signed sell n) +ℤ pos (s + n) ≡ pos (b + 0)
unfolding ◌+ℤ◌ ◌-ℤ◌
held_sell (pos c) b s n e = ground arith
held_sell (negsuc c) b s n e = ground arith

settle_fill-Balanced :
    (initial : ℤ) (order_id timestamp price quantity : ℕ) (side : TradeSide) (aggressor : Bool)
    (x : PaperExchange)
    → Balanced initial x
    → Balanced initial (
        settle_fill order_id timestamp
          record {
            fill_price = price;
            fill_quantity = quantity;
            side = side;
            aggressor = aggressor;
          }
          x)
unfolding settle_fill
settle_fill-Balanced initial order_id timestamp price quantity buy aggressor x b =
    let fills = x.fill_history in
    (
      rw (sum_by-append bought_for fills _, sum_by-append sold_for fills _)
          (paid x.cash initial (sum_by bought_for fills) (sum_by sold_for fills) (price * quantity)
            b.0),
      rw
          (
            sum_by-append bought fills _,
            sum_by-append sold fills _,
            apply_fill-quantity price quantity buy x.position,
          )
          (held_buy x.position.quantity (sum_by bought fills) (sum_by sold fills) quantity b.1),
    )
settle_fill-Balanced initial order_id timestamp price quantity sell aggressor x b =
    let fills = x.fill_history in
    (
      rw (sum_by-append bought_for fills _, sum_by-append sold_for fills _)
          (received x.cash initial (sum_by bought_for fills) (sum_by sold_for fills)
            (price * quantity) b.0),
      rw
          (
            sum_by-append bought fills _,
            sum_by-append sold fills _,
            apply_fill-quantity price quantity sell x.position,
          )
          (held_sell x.position.quantity (sum_by bought fills) (sum_by sold fills) quantity b.1),
    )

settle_details-Balanced :
    (initial : ℤ) (ev : ExchangeEvent) (d : Option FillDetails) (x : PaperExchange)
    → Balanced initial x
    → Balanced initial (settle_details ev d x)
settle_details-Balanced initial ev none x b = b
settle_details-Balanced initial ev (some d) x b =
    if_both (Balanced initial) (is_fill_event ev.event_type)
      (λ e.
        settle_fill-Balanced initial ev.order_id ev.timestamp d.fill_price d.fill_quantity d.side
          d.aggressor x b)
      (λ e. b)

settle-Balanced :
    (initial : ℤ) (events : List ExchangeEvent) (x : PaperExchange)
    → Balanced initial x
    → Balanced initial (settle events x)
unfolding settle
settle-Balanced initial [] x b = b
settle-Balanced initial (ev ∷ events) x b =
    settle-Balanced initial events (settle_details ev ev.details (log_event ev x))
      (settle_details-Balanced initial ev ev.details (log_event ev x) b)

put_all-Balanced :
    (initial : ℤ) (orders : List Order) (x : PaperExchange)
    → Balanced initial x
    → Balanced initial (put_all orders x)
unfolding put_all put_history
put_all-Balanced initial [] x b = b
put_all-Balanced initial (o ∷ orders) x b = put_all-Balanced initial orders (put_history o x) b

activate-Balanced :
    (initial : ℤ) (o : Order) (x : PaperExchange)
    → Balanced initial x
    → Balanced initial (activate o x)
unfolding activate put_history
activate-Balanced initial o x b =
    let r = submit_order x.engine o (or_now x.current_time o.active_at) in
    settle-Balanced initial r.1.events (put_history r.1.order (record x { engine = r.0 })) b

launch-Balanced :
    (initial : ℤ) (reason : Option ℕ) (o : Order) (x : PaperExchange)
    → Balanced initial x
    → Balanced initial (launch reason o x)
unfolding launch put_history
launch-Balanced initial (some reason) o x b = b
launch-Balanced initial none o x b =
    if_both (Balanced initial) (x.latency == 0)
      (λ e. activate-Balanced initial (sent x o) (put_history (sent x o) (with_expiring o x)) b)
      (λ e. b)

check-Balanced :
    (initial : ℤ) (o : Order) (side : TradeSide) (x : PaperExchange)
    → o.side ≡ side
    → Balanced initial x
    → Balanced initial (pretrade_reject_reason o x).0
unfolding pretrade_reject_reason
check-Balanced initial o sell x e b = rw e b
check-Balanced initial o buy x e b = rw e (
    if_both (λ (r : PaperExchange × Option ℕ). Balanced initial r.0) (is_market o.order_type)
      (λ m. estimated (estimate_market_buy_cost x.engine.book o.quantity)) (λ m. b))
  where
    estimated : (cost : Option ℕ) → Balanced initial (with_estimate o cost x).0
    estimated none = b
    estimated (some cost) = b

submit-Balanced :
    (initial : ℤ) (paper_id : ℕ → ℕ) (t : Ticket) (x : PaperExchange)
    → Balanced initial x
    → Balanced initial (submit paper_id t x)
unfolding submit
submit-Balanced initial paper_id t x b =
    let o = order_for (paper_id (x.order_seq + 1)) t x.current_time in
    let r = pretrade_reject_reason o (record x { order_seq = x.order_seq + 1 }) in
    launch-Balanced initial r.1 o (record r.0 { order_history = r.0.order_history ++ o ∷ [] })
      (check-Balanced initial o t.side (record x { order_seq = x.order_seq + 1 }) refl b)

cancel-Balanced :
    (initial : ℤ) (order_id : ℕ) (x : PaperExchange)
    → Balanced initial x
    → Balanced initial (cancel_order order_id x)
unfolding cancel_order put_history
cancel-Balanced initial order_id x b =
    elim (Option-cases (first_where (λ f. f.order.order_id == order_id) x.inflight)) [
      | inr (f, e) ↦ rw e b
      | inl e ↦
          rw e (
            active
              (Option-cases (first_where (λ o. o.order_id == order_id) x.engine.pending_stops)))
    ]
  where
    active :
        (first_where (λ o. o.order_id == order_id) x.engine.pending_stops ≡ none)
          ⊎ ((o : Order) × (first_where (λ o. o.order_id == order_id) x.engine.pending_stops
                ≡ some o))
        → Balanced initial (cancel_active order_id x)
    active (inl e) = rw e b
    active (inr (o, e)) = rw e b

release-Balanced :
    (initial : ℤ) (n timestamp : ℕ) (x : PaperExchange)
    → Balanced initial x
    → Balanced initial (release n timestamp x)
unfolding release release_one
release-Balanced initial zero timestamp x b = b
release-Balanced initial (suc n) timestamp x b = elim (Option-cases (earliest x.inflight)) [
  | inl e ↦ rw e b
  | inr (f, e) ↦ rw e (
      if_both (Balanced initial) (is_due x.clock_eps timestamp f)
        (λ d.
          release-Balanced initial n timestamp (release_one f x)
            (activate-Balanced initial f.order (popped f x) b))
        (λ d. b))
]

expire-Balanced :
    (initial : ℤ) (x : PaperExchange) → Balanced initial x → Balanced initial (expire x)
unfolding expire
expire-Balanced initial x b =
    let r = expire_orders x.engine x.current_time in
    let past = select_where (λ o. is_past x.current_time o.expires_at) x.engine.pending_stops in
    let stops = expired_stops x.current_time past in
    settle-Balanced initial r.1 (put_all stops (record x { engine = r.0 }))
      (put_all-Balanced initial stops (record x { engine = r.0 }) b)

advance-Balanced :
    (initial : ℤ) (timestamp : ℕ) (x : PaperExchange)
    → Balanced initial x
    → Balanced initial (advance_to timestamp x)
unfolding advance_to
advance-Balanced initial timestamp x b =
    let released = release (length x.inflight) timestamp x in
    let now : PaperExchange = record released {
      current_time = max released.current_time timestamp;
    } in
    let kept = release-Balanced initial (length x.inflight) timestamp x b in
    if_both (Balanced initial) now.has_expiring (λ e. expire-Balanced initial now kept) (λ e. kept)

feed_event-Balanced :
    (initial : ℤ) (portion : ℕ → ℕ → ℕ → ℕ) (event : BookEvent) (drawn : ℕ) (x : PaperExchange)
    → Balanced initial x
    → Balanced initial (feed_event portion event drawn x)
unfolding feed_event
feed_event-Balanced initial portion event drawn x b =
    let now = advance_to event.timestamp x in
    let kept = advance-Balanced initial event.timestamp x b in
    let (engine, executed, events) = on_market_event portion now.engine event drawn in
    let fed : PaperExchange = record now { engine = engine; event_count = now.event_count + 1 } in
    settle-Balanced initial events (put_all executed fed)
      (put_all-Balanced initial executed fed kept)

-- What a simulation does, one after another.
pub data Action : Type 0 where
  submits : Ticket → Action
  cancels : ℕ → Action
  advances : ℕ → Action
  feeds : (ℕ → ℕ → ℕ → ℕ) → BookEvent → ℕ → Action

unfoldable pub act : (ℕ → ℕ) → Action → PaperExchange → PaperExchange
unfolding submit cancel_order advance_to feed_event
act paper_id (submits t) x = submit paper_id t x
act paper_id (cancels order_id) x = cancel_order order_id x
act paper_id (advances timestamp) x = advance_to timestamp x
act paper_id (feeds portion event drawn) x = feed_event portion event drawn x

unfoldable pub act_all : (ℕ → ℕ) → List Action → PaperExchange → PaperExchange
unfolding act
act_all paper_id [] x = x
act_all paper_id (a ∷ actions) x = act_all paper_id actions (act paper_id a x)

act-Balanced :
    (initial : ℤ) (paper_id : ℕ → ℕ) (a : Action) (x : PaperExchange)
    → Balanced initial x
    → Balanced initial (act paper_id a x)
unfolding act
act-Balanced initial paper_id (submits t) x b = submit-Balanced initial paper_id t x b
act-Balanced initial paper_id (cancels order_id) x b = cancel-Balanced initial order_id x b
act-Balanced initial paper_id (advances timestamp) x b = advance-Balanced initial timestamp x b
act-Balanced initial paper_id (feeds portion event drawn) x b =
    feed_event-Balanced initial portion event drawn x b

-- In every simulation the cash is the initial cash less what the fills bought for and plus what they
-- sold for, and the position is what they bought less what they sold: no money and no shares come
-- from or go anywhere else.
pub act_all-Balanced :
    (initial : ℤ) (paper_id : ℕ → ℕ) (actions : List Action) (x : PaperExchange)
    → Balanced initial x
    → Balanced initial (act_all paper_id actions x)
unfolding act_all
act_all-Balanced initial paper_id [] x b = b
act_all-Balanced initial paper_id (a ∷ actions) x b =
    act_all-Balanced initial paper_id actions (act paper_id a x)
      (act-Balanced initial paper_id a x b)
