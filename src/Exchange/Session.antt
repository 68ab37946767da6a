-- ===== src/Exchange/Session.antt =====
-- The operations of the paper exchange (backend/services/paper_exchange.py: submit_order,
-- cancel_order, advance_to, on_market_event and what they call). `paper_id` numbers the texts P00000001
-- and so on. The check of a constructor's latency is not modelled, a latency is not negative.
pub mod Balance
pub mod Release
use quantumsentinel_web.Prelude.{
  ℕ, zero, suc, ◌+◌, ◌-◌, ◌*◌, min, max, Bool, true, false, not, ◌&&◌, ◌||◌, ltb, leb, ◌==◌,
  if◌then◌else◌, Option, none, some, List, [], ◌∷◌, ◌++◌, first_where, select_where, order_by,
  update_first, length,
}
use quantumsentinel_web.Prelude.Int.{ℤ, pos, negsuc, ◌+ℤ◌, ◌-ℤ◌, ltb_ℤ}
use quantumsentinel_web.Book.{
  TradeSide, buy, sell, OrderType, OrderStatus, submitted, cancelled, rejected, filled, expired,
  TimeInForce, paper, Order, eps, Fill,
}
use quantumsentinel_web.Book.Match.{is_filled}
use quantumsentinel_web.Book.Event.{BookEvent}
use quantumsentinel_web.Engine.{
  EventKind, order_submitted, order_cancelled, order_rejected, order_filled, order_partially_filled,
  FillDetails, ExchangeEvent, MatchingEngine, event_of, submit_order, cancel, with_status,
}
use quantumsentinel_web.Engine.Stops.{expire_orders, is_past}
use quantumsentinel_web.Engine.Feed.{on_market_event}
use quantumsentinel_web.Exchange.Position.{PaperPosition, apply_fill}
use quantumsentinel_web.Exchange.{
  InFlight, Estimate, PaperExchange, current, is_market, available_cash, sellable_quantity,
  estimate_market_buy_cost, price_or_stop,
}

-- FILL_EVENTS
unfoldable pub is_fill_event : EventKind → Bool
is_fill_event order_filled = true
is_fill_event order_partially_filled = true
is_fill_event _ = false

abbrev is_unfilled : Option Order → Bool
is_unfilled none = false
is_unfilled (some o) = not (is_filled o.status)

abbrev pub moved : TradeSide → ℤ → ℕ → ℤ
moved side cash notional = elim side [ buy ↦ cash -ℤ pos notional | sell ↦ cash +ℤ pos notional ]

-- _apply_fill
unfoldable pub settle_fill : ℕ → ℕ → FillDetails → PaperExchange → PaperExchange
unfolding apply_fill current is_filled
settle_fill order_id timestamp d x = record x {
  position = apply_fill d.fill_price d.fill_quantity d.side x.position;
  cash = moved d.side x.cash (d.fill_price * d.fill_quantity);
  fill_history =
      x.fill_history
      ++ record {
        order_id = order_id;
        fill_price = d.fill_price;
        fill_quantity = d.fill_quantity;
        timestamp = timestamp;
        is_partial = is_unfilled (current x order_id);
        aggressor = d.aggressor;
        side = d.side;
      }
        ∷ [];
}

abbrev pub settle_details : ExchangeEvent → Option FillDetails → PaperExchange → PaperExchange
settle_details ev none x = x
settle_details ev (some d) x =
    if is_fill_event ev.event_type then settle_fill ev.order_id ev.timestamp d x else x

abbrev pub log_event : ExchangeEvent → PaperExchange → PaperExchange
log_event ev x = record x { event_log = x.event_log ++ ev ∷ [] }

-- _settle
unfoldable pub settle : List ExchangeEvent → PaperExchange → PaperExchange
unfolding is_fill_event settle_fill
settle [] x = x
settle (ev ∷ events) x = settle events (settle_details ev ev.details (log_event ev x))

-- The object of an order in the history, where it is in neither the book nor a waiting stop.
unfoldable pub put_history : Order → PaperExchange → PaperExchange
unfolding update_first
put_history o x = record x {
  order_history = update_first (λ p. p.order_id == o.order_id) (λ p. o) x.order_history;
}

unfoldable pub put_all : List Order → PaperExchange → PaperExchange
unfolding put_history
put_all [] x = x
put_all (o ∷ orders) x = put_all orders (put_history o x)

abbrev pub without_estimate : ℕ → PaperExchange → PaperExchange
without_estimate order_id x = record x {
  market_cost_estimate = select_where (λ e. not (e.order_id == order_id)) x.market_cost_estimate;
}

abbrev pub or_now : ℕ → Option ℕ → ℕ
or_now now none = now
or_now now (some t) = t

-- _activate
unfoldable pub activate : Order → PaperExchange → PaperExchange
unfolding submit_order put_history settle select_where
activate o x =
    let (engine, h) = submit_order x.engine o (or_now x.current_time o.active_at) in
    without_estimate o.order_id
      (settle h.events (put_history h.order (record x { engine = engine })))

-- The reasons: 7 is the cash that is missing, 8 the position.
abbrev pub too_dear : ℕ → PaperExchange → Option ℕ
too_dear cost x = if ltb_ℤ (available_cash x +ℤ pos x.tolerance) (pos cost) then some 7 else none

abbrev pub with_estimate : Order → Option ℕ → PaperExchange → PaperExchange × Option ℕ
with_estimate o none x = (x, none)
with_estimate o (some cost) x =
    let estimated : PaperExchange = record x {
      market_cost_estimate =
          x.market_cost_estimate ++ record { order_id = o.order_id; cost = cost } ∷ [];
    } in
    (estimated, too_dear cost estimated)

abbrev reject_buy : Order → PaperExchange → PaperExchange × Option ℕ
reject_buy o x =
    if is_market o.order_type
    then with_estimate o (estimate_market_buy_cost x.engine.book o.quantity) x
    else (x, too_dear (o.quantity * price_or_stop o.limit_price o.stop_price) x)

-- _pretrade_reject_reason
unfoldable pub pretrade_reject_reason : Order → PaperExchange → PaperExchange × Option ℕ
unfolding available_cash sellable_quantity estimate_market_buy_cost
pretrade_reject_reason o x = elim o.side [
  | buy ↦ reject_buy o x
  | sell ↦ (x, if ltb_ℤ (sellable_quantity x +ℤ pos eps) (pos o.quantity) then some 8 else none)
]

abbrev pub is_given : Option ℕ → Bool
is_given none = false
is_given (some t) = true

abbrev pub sent : PaperExchange → Order → Order
sent x o = record o { active_at = some (x.current_time + x.latency) }

abbrev pub with_expiring : Order → PaperExchange → PaperExchange
with_expiring o x = record x { has_expiring = x.has_expiring || is_given o.expires_at }

-- The order after its check: rejected, in flight, or active at once.
unfoldable pub launch : Option ℕ → Order → PaperExchange → PaperExchange
unfolding activate put_history
launch (some reason) o x =
    log_event (event_of x.current_time (order_rejected reason) o)
      (put_history (with_status rejected o) x)
launch none o x =
    let ready = put_history (sent x o) (with_expiring o x) in
    let flying : PaperExchange = record ready {
      inflight =
          ready.inflight ++ record { arrival = x.current_time + x.latency; order = sent x o } ∷ [];
    } in
    if x.latency == 0
    then activate (sent x o) ready
    else log_event (event_of x.current_time order_submitted (sent x o)) flying

-- What a caller asks for.
pub record Ticket : Type 0 where
  pub side : TradeSide
  pub quantity : ℕ
  pub order_type : OrderType
  pub limit_price : Option ℕ
  pub stop_price : Option ℕ
  pub time_in_force : TimeInForce
  pub expires_at : Option ℕ

abbrev pub order_for : ℕ → Ticket → ℕ → Order
order_for order_id t now = record {
  order_id = order_id;
  side = t.side;
  order_type = t.order_type;
  quantity = t.quantity;
  limit_price = t.limit_price;
  stop_price = t.stop_price;
  time_in_force = t.time_in_force;
  submitted_at = now;
  expires_at = t.expires_at;
  owner = paper;
  status = submitted;
  filled_quantity = 0;
  avg_fill_price = record { total = 0; quantity = 1 };
  queue_ahead = 0;
  queue_ahead_at_entry = 0;
  queue_ahead_peak = 0;
  entered_book_at = none;
  filled_at = none;
  active_at = none;
}

unfoldable pub submit : (ℕ → ℕ) → Ticket → PaperExchange → PaperExchange
unfolding pretrade_reject_reason launch
submit paper_id t x =
    let o = order_for (paper_id (x.order_seq + 1)) t x.current_time in
    let (checked, reason) = pretrade_reject_reason o (record x { order_seq = x.order_seq + 1 }) in
    launch reason o (record checked { order_history = checked.order_history ++ o ∷ [] })

abbrev pub stop_cancelled : Option Order → PaperExchange → PaperExchange
stop_cancelled none x = x
stop_cancelled (some o) x = put_history (with_status cancelled o) x

abbrev pub cancel_active : ℕ → PaperExchange → PaperExchange
cancel_active order_id x =
    let (engine, events) = cancel x.engine order_id x.current_time in
    let done : PaperExchange = record x { engine = engine; event_log = x.event_log ++ events } in
    stop_cancelled (first_where (λ o. o.order_id == order_id) x.engine.pending_stops) done

-- The first order in flight with the id.
unfoldable pub remove_inflight : ℕ → List InFlight → List InFlight
remove_inflight order_id [] = []
remove_inflight order_id (f ∷ inflight) =
    let rest = remove_inflight order_id inflight in
    if f.order.order_id == order_id then inflight else f ∷ rest

abbrev cancel_inflight : ℕ → Option InFlight → PaperExchange → PaperExchange
cancel_inflight order_id none x = cancel_active order_id x
cancel_inflight order_id (some f) x = log_event (event_of x.current_time order_cancelled f.order) (
    without_estimate order_id (
      put_history (with_status cancelled f.order)
        (record x { inflight = remove_inflight order_id x.inflight })))

unfoldable pub cancel_order : ℕ → PaperExchange → PaperExchange
unfolding cancel put_history first_where select_where remove_inflight
cancel_order order_id x =
    cancel_inflight order_id (first_where (λ f. f.order.order_id == order_id) x.inflight) x

-- The top of the heap: the earliest arrival, and of equal ones the first pushed.
unfoldable pub earliest : List InFlight → Option InFlight
unfolding order_by first_where
earliest inflight = first_where (λ f. true) (order_by (λ f. f.arrival) inflight)

abbrev pub is_due : ℕ → ℕ → InFlight → Bool
is_due tolerance timestamp f = leb f.arrival (timestamp + tolerance)

abbrev pub popped : InFlight → PaperExchange → PaperExchange
popped f x = record x {
  inflight = remove_inflight f.order.order_id x.inflight;
  current_time = max x.current_time f.arrival;
}

-- heappop of an order, and its activation at the time of its arrival.
unfoldable pub release_one : InFlight → PaperExchange → PaperExchange
unfolding activate remove_inflight
release_one f x = activate f.order (popped f x)

abbrev release_due :
    (PaperExchange → PaperExchange) → ℕ → Option InFlight → PaperExchange → PaperExchange
release_due rest timestamp none x = x
release_due rest timestamp (some f) x =
    let released = rest (release_one f x) in if is_due x.clock_eps timestamp f then released else x

-- The loop of advance_to, on fuel.
unfoldable pub release : ℕ → ℕ → PaperExchange → PaperExchange
unfolding earliest release_one
release zero timestamp x = x
release (suc n) timestamp x =
    release_due (λ y. release n timestamp y) timestamp (earliest x.inflight) x

abbrev pub expired_stops : ℕ → List Order → List Order
expired_stops now [] = []
expired_stops now (o ∷ stops) = with_status expired o ∷ expired_stops now stops

unfoldable pub expire : PaperExchange → PaperExchange
unfolding expire_orders settle put_all select_where
expire x =
    let (engine, events) = expire_orders x.engine x.current_time in
    let past = select_where (λ o. is_past x.current_time o.expires_at) x.engine.pending_stops in
    settle events (put_all (expired_stops x.current_time past) (record x { engine = engine }))

unfoldable pub advance_to : ℕ → PaperExchange → PaperExchange
unfolding release expire
advance_to timestamp x =
    let released = release (length x.inflight) timestamp x in
    let now : PaperExchange = record released {
      current_time = max released.current_time timestamp;
    } in
    if now.has_expiring then expire now else now

-- on_market_event
unfoldable pub feed_event : (ℕ → ℕ → ℕ → ℕ) → BookEvent → ℕ → PaperExchange → PaperExchange
unfolding advance_to on_market_event put_all settle
feed_event portion event drawn x =
    let now = advance_to event.timestamp x in
    let (engine, executed, events) = on_market_event portion now.engine event drawn in
    settle events
      (put_all executed (record now { engine = engine; event_count = now.event_count + 1 }))
