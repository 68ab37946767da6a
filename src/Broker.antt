-- ===== src/Broker.antt =====
-- Order transitions of backend/services/paper_broker.py, and the two routes of backend/main.py that
-- place and cancel an order. A session runs one transaction at a time, and what an operation is given
-- as `trade` may be stale: every decision is taken on the row.
pub mod Once
pub mod Balance
use quantumsentinel_web.Prelude.{
  ℕ, ◌+◌, ◌-◌, Bool, true, false, not, ◌&&◌, ltb, leb, ◌==◌, if◌then◌else◌, Option, none, some,
  List, [], ◌∷◌, ◌++◌, update_where, count_where, first_where,
}
use quantumsentinel_web.Money.{
  Decimal, lt, Side, buy, sell, OrderType, stop_limit, limit, notional_micros,
}
use quantumsentinel_web.Trading.{Fill, rests, simulate_fill, stop_triggered}
use quantumsentinel_web.Trading
use quantumsentinel_web.Ledger.{
  TradeStatus, is_open, is_pending, is_accepted, pending, accepted, filled, expired, rejected,
  cancelled, TimeInForce, day, gtc, ioc, Trade, PaperAccount, Tables, Session, commit, rollback,
  trade_reservation_micros, account_of, try_reserve, released, release,
}
use quantumsentinel_web.Positions.{held_quantity, rebuild_positions}

-- Compare-and-set: the row of an open order gets the values, any other row stays.
abbrev pub open_row : ℕ → Trade → Bool
open_row id t = t.id == id && is_open t.status

unfoldable pub cas_status : ℕ → (Trade → Trade) → Tables → Tables × Bool
cas_status id values w = (
  record w { trades = update_where (open_row id) values w.trades },
  count_where (open_row id) w.trades == 1,
)

unfoldable pub reserved_or : Option ℕ → Trade → ℕ
reserved_or none t = trade_reservation_micros t
reserved_or (some reserved) t = reserved

unfoldable pub close_order : Session → Trade → TradeStatus → Option ℕ → Session × Bool
unfolding cas_status reserved_or
close_order s t to_status given =
    let reserved = reserved_or given t in
    let (w, done) = cas_status t.id (λ row. record row { status = to_status }) s.working in
    if done
    then (
      commit (record s { working = if ltb 0 reserved then release t.user_id reserved w else w }),
      true,
    )
    else (rollback s, false)

unfoldable pub accept_order : Session → Trade → Session × Bool
accept_order s t =
    let ready = λ (row : Trade). row.id == t.id && is_pending row.status in
    let w = s.working in
    (
      commit (record s {
        working = record w {
          trades = update_where ready (λ row. record row { status = accepted }) w.trades;
        };
      }),
      count_where ready w.trades == 1,
    )

pub data RejectReason : Type 0 where
  insufficient_cash exceeds_position : RejectReason

pub data FillOutcome : Type 0 where
  outcome_filled not_open : FillOutcome
  outcome_rejected : RejectReason → FillOutcome

-- The WHERE clause of a buy, `cash - cost >= new_reserved`.
unfoldable pub can_pay : ℕ → ℕ → ℕ → PaperAccount → Bool
can_pay user cost reserved a =
    a.user_id == user && leb (released reserved a.reserved_micros + cost) a.cash_micros

unfoldable pub pay : ℕ → ℕ → PaperAccount → PaperAccount
pay cost reserved a = record a {
  cash_micros = a.cash_micros - cost;
  reserved_micros = released reserved a.reserved_micros;
}

unfoldable pub fill_values : Decimal → ℕ → Trade → Trade
fill_values price now row = record row {
  status = filled;
  filled_price = some price;
  filled_at = some now;
}

-- Settlement by the side of the order: the tables after it, or why it is refused.
pub data Settlement : Type 0 where
  settled : Tables → Settlement
  refused : RejectReason → Settlement

unfoldable pub settle : Side → Trade → ℕ → ℕ → Tables → Settlement
unfolding can_pay pay
settle buy t cost reserved w =
    if count_where (can_pay t.user_id cost reserved) w.accounts == 1
    then settled (record w {
      accounts = update_where (can_pay t.user_id cost reserved) (pay cost reserved) w.accounts;
    })
    else refused insufficient_cash
settle sell t cost reserved w =
    if lt (held_quantity w t.user_id t.asset (some t.id)) t.quantity
    then refused exceeds_position
    else settled (record w {
      accounts =
          update_where (account_of t.user_id) (λ a. record a { cash_micros = a.cash_micros + cost })
            w.accounts;
    })

unfoldable pub finish_fill : Session → Trade → ℕ → Settlement → Session × FillOutcome
unfolding close_order
finish_fill s t reserved (refused reason) =
    ((close_order (rollback s) t rejected (some reserved)).0, outcome_rejected reason)
finish_fill s t reserved (settled w) =
    (commit (record s { working = rebuild_positions t.user_id w }), outcome_filled)

unfoldable pub fill_order : Session → Trade → Decimal → Option ℕ → ℕ → Session × FillOutcome
unfolding cas_status reserved_or settle finish_fill
fill_order s t fill_price given now =
    let reserved = reserved_or given t in
    let cost = notional_micros t.quantity fill_price in
    let (w, done) = cas_status t.id (fill_values fill_price now) s.working in
    if done
    then finish_fill (record s { working = w }) t reserved (settle t.side t cost reserved w)
    else (rollback s, not_open)
