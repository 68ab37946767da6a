-- ===== src/Orders.antt =====
-- The two routes of backend/main.py that write orders: what `place_order` does once an order has
-- passed the risk checks, and `cancel_order`. `insert_ok` says whether the insert of the order was
-- accepted by the database (it is refused when the nonce of the order was used before). The audit
-- log, the webhooks and the idempotency record are not part of these tables.
use quantumsentinel_web.Prelude.{
  ℕ, Bool, true, false, not, ◌&&◌, ◌==◌, if◌then◌else◌, Option, none, some, [], ◌∷◌, ◌++◌,
  update_where, first_where,
}
use quantumsentinel_web.Money.{Decimal, OrderType, limit, stop_limit, reservation_micros}
use quantumsentinel_web.Trading.{rests, simulate_fill, stop_triggered}
use quantumsentinel_web.Ledger.{
  is_pending, is_accepted, expired, cancelled, TimeInForce, day, gtc, ioc, Trade, Session, commit,
  rollback, try_reserve,
}
use quantumsentinel_web.Broker.{close_order, accept_order, fill_order, FillOutcome}

pub data PlaceOutcome : Type 0 where
  duplicate_id insufficient_cash insert_refused : PlaceOutcome
  fill_outcome : FillOutcome → PlaceOutcome
  closed_ioc resting : PlaceOutcome

abbrev pub trade_with_id : ℕ → Trade → Bool
trade_with_id id t = t.id == id

-- A stop-limit that is triggered on arrival and not marketable rests as a limit order.
unfoldable pub triggered_stop_limit : OrderType → Trade → Decimal → Option Decimal → Bool
triggered_stop_limit stop_limit t last (some stop_price) = stop_triggered t.side stop_price last
triggered_stop_limit _ t last _ = false

unfoldable pub convert_to_limit : ℕ → Session → Session
convert_to_limit id s = commit (record s {
  working = record s.working {
    trades =
        update_where (trade_with_id id) (λ row. record row { order_type = limit }) s.working.trades;
  };
})

unfoldable pub rest_order : Session → Trade → Decimal → Bool → Session
unfolding triggered_stop_limit convert_to_limit
rest_order s t last quote_stale =
    let live = not quote_stale && triggered_stop_limit t.order_type t last t.stop_price in
    (accept_order (if live then convert_to_limit t.id s else s) t).0

unfoldable pub close_or_rest :
    TimeInForce → Session → Trade → ℕ → Decimal → Bool → Session × PlaceOutcome
unfolding rest_order
close_or_rest ioc s t reserve last quote_stale =
    ((close_order s t expired (some reserve)).0, closed_ioc)
close_or_rest day s t reserve last quote_stale = (rest_order s t last quote_stale, resting)
close_or_rest gtc s t reserve last quote_stale = (rest_order s t last quote_stale, resting)

-- `if fill["status"] == "FILLED"`: a fill has a price exactly then.
unfoldable pub execute_fill :
    Option Decimal → Session → Trade → ℕ → Decimal → Bool → ℕ → Session × PlaceOutcome
unfolding close_or_rest
execute_fill (some price) s t reserve last quote_stale now =
    let (s', outcome) = fill_order s t price (some reserve) now in (s', fill_outcome outcome)
execute_fill none s t reserve last quote_stale now =
    close_or_rest t.time_in_force s t reserve last quote_stale

unfoldable pub route_order : Session → Trade → ℕ → Decimal → Bool → ℕ → Session × PlaceOutcome
unfolding execute_fill
route_order s t reserve last quote_stale now =
    let fill =
      if quote_stale
      then rests
      else simulate_fill t.side t.order_type t.limit_price t.stop_price last in
    execute_fill fill.filled_price s t reserve last quote_stale now

abbrev pub add_trade : Trade → Session → Session
add_trade t s = record s { working = record s.working { trades = s.working.trades ++ t ∷ [] } }

-- From the reservation on: `enough` is whether it was granted.
unfoldable pub insert_order :
    Bool → Bool → Session → Trade → ℕ → Decimal → Bool → ℕ → Session × PlaceOutcome
unfolding route_order
insert_order false insert_ok s t reserve last quote_stale now = (rollback s, insufficient_cash)
insert_order true false s t reserve last quote_stale now =
    (rollback (add_trade t s), insert_refused)
insert_order true true s t reserve last quote_stale now =
    route_order (commit (add_trade t s)) t reserve last quote_stale now

unfoldable pub place_unused :
    Option Trade → Session → Trade → Decimal → Bool → Bool → ℕ → Session × PlaceOutcome
unfolding insert_order
place_unused (some used) s t last quote_stale insert_ok now = (s, duplicate_id)
place_unused none s t last quote_stale insert_ok now =
    let reserve =
      reservation_micros t.side t.quantity t.order_type t.limit_price t.stop_price (some last) in
    let (reserved, enough) = try_reserve s t.user_id reserve in
    insert_order enough insert_ok reserved t reserve last quote_stale now

-- `t` is the new order, in status PENDING.
unfoldable pub place_order : Session → Trade → Decimal → Bool → Bool → ℕ → Session × PlaceOutcome
unfolding place_unused
place_order s t last quote_stale insert_ok now =
    place_unused (first_where (trade_with_id t.id) s.working.trades) s t last quote_stale insert_ok
      now

pub data CancelOutcome : Type 0 where
  not_found still_pending not_cancellable no_longer_open cancel_done : CancelOutcome

unfoldable pub cancel_row : Session → ℕ → Option Trade → Session × CancelOutcome
cancel_row s user none = (s, not_found)
cancel_row s user (some t) =
    let (s', done) = close_order s t cancelled none in
    if not (t.user_id == user)
    then (s, not_found)
    else if is_pending t.status
    then (s, still_pending)
    else if not (is_accepted t.status)
    then (s, not_cancellable)
    else (s', if done then cancel_done else no_longer_open)

unfoldable pub cancel_order : Session → ℕ → ℕ → Session × CancelOutcome
unfolding cancel_row
cancel_order s user id = cancel_row s user (first_where (trade_with_id id) s.working.trades)
