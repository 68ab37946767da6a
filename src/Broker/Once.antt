-- ===== src/Broker/Once.antt =====
-- Fills and closes of an order that was filled or closed (backend/services/paper_broker.py).
use quantumsentinel_web.Prelude.{
  ℕ, ◌≡◌, refl, true, false, Option, arith, count_where, count_where-update_where,
}
use quantumsentinel_web.Money.{Decimal, Side, buy, sell, notional_micros}
use quantumsentinel_web.Ledger.{TradeStatus, is_open, Trade, Tables, Session, rollback, release}
use quantumsentinel_web.Positions.{rebuild_positions}
use quantumsentinel_web.Broker.{
  open_row, cas_status, close_order, fill_order, fill_values, outcome_filled, not_open, Settlement,
  settled, refused, settle, finish_fill, reserved_or,
}

-- No open row has the id.
abbrev pub NoneOpen : ℕ → Tables → Type 0
NoneOpen id w = count_where (open_row id) w.trades ≡ 0

closed_row :
    (id : ℕ) (t : Trade) (to_status : TradeStatus)
    → is_open to_status ≡ false
    → open_row id (record t { status = to_status }) ≡ false
closed_row id t to_status o = ground arith

cas_closes :
    (id : ℕ) (values : Trade → Trade) (w : Tables)
    → ((t : Trade) → open_row id t ≡ true → open_row id (values t) ≡ false)
    → NoneOpen id (cas_status id values w).0
unfolding cas_status
cas_closes id values w k = count_where-update_where (open_row id) values k w.trades

pub close_order-NoneOpen :
    (s : Session) (t : Trade) (to_status : TradeStatus) (given : Option ℕ)
    → is_open to_status ≡ false
    → (close_order s t to_status given).1 ≡ true
    → NoneOpen t.id (close_order s t to_status given).0.working
unfolding close_order release
close_order-NoneOpen s t to_status given o h = ground (
  arith,
  cas_closes t.id (λ (row : Trade). record row { status = to_status }) s.working
      (λ (row : Trade) p. closed_row t.id row to_status o),
)

close_refused :
    (s : Session) (t : Trade) (to_status : TradeStatus) (given : Option ℕ)
    → NoneOpen t.id s.working
    → close_order s t to_status given ≡ (rollback s, false)
unfolding close_order cas_status
close_refused s t to_status given h = ground arith

fill_refused :
    (s : Session) (t : Trade) (price : Decimal) (given : Option ℕ) (now : ℕ)
    → NoneOpen t.id s.working
    → fill_order s t price given now ≡ (rollback s, not_open)
unfolding fill_order cas_status
fill_refused s t price given now h = ground arith

settle-NoneOpen :
    (id : ℕ) (side : Side) (t : Trade) (cost reserved : ℕ) (w v : Tables)
    → NoneOpen id w
    → settle side t cost reserved w ≡ settled v
    → NoneOpen id v
unfolding settle
settle-NoneOpen id buy t cost reserved w v h e = ground arith
settle-NoneOpen id sell t cost reserved w v h e = ground arith

finish_fill-NoneOpen :
    (s : Session) (t : Trade) (reserved : ℕ) (r : Settlement)
    → ((v : Tables) → r ≡ settled v → NoneOpen t.id v)
    → (finish_fill s t reserved r).1 ≡ outcome_filled
    → NoneOpen t.id (finish_fill s t reserved r).0.working
unfolding finish_fill rebuild_positions
finish_fill-NoneOpen s t reserved (settled v) k h = k v refl
finish_fill-NoneOpen s t reserved (refused reason) k h = cc

fill_values_closed :
    (id : ℕ) (price : Decimal) (now : ℕ) (t : Trade) → open_row id (fill_values price now t) ≡ false
unfolding fill_values is_open
fill_values_closed id price now t = ground arith

fill_order-NoneOpen :
    (s : Session) (t : Trade) (price : Decimal) (given : Option ℕ) (now : ℕ)
    → (fill_order s t price given now).1 ≡ outcome_filled
    → NoneOpen t.id (fill_order s t price given now).0.working
unfolding fill_order
fill_order-NoneOpen s t price given now h =
    let w = (cas_status t.id (fill_values price now) s.working).0 in
    let reserved = reserved_or given t in
    let cost = notional_micros t.quantity price in
    let closed =
      cas_closes t.id (fill_values price now) s.working
        (λ (row : Trade) p. fill_values_closed t.id price now row) in
    let done =
      finish_fill-NoneOpen (record s { working = w }) t reserved (settle t.side t cost reserved w)
        (λ v e. settle-NoneOpen t.id t.side t cost reserved w v closed e) in
    ground (arith, done)

-- Once an order is filled, a later attempt to fill it, at any price, or to close it changes nothing
-- and is refused: it is filled at most once, and never filled and cancelled.
pub filled_once :
    (s : Session) (t : Trade) (price : Decimal) (given : Option ℕ) (now : ℕ)
    → (fill_order s t price given now).1 ≡ outcome_filled
    → (u : Trade) (price' : Decimal) (to_status : TradeStatus) (given' : Option ℕ) (now' : ℕ)
    → u.id ≡ t.id
    → let s' = (fill_order s t price given now).0 in
      (fill_order s' u price' given' now' ≡ (rollback s', not_open))
      × (close_order s' u to_status given' ≡ (rollback s', false))
filled_once s t price given now h u price' to_status given' now' e =
    let s' = (fill_order s t price given now).0 in
    let closed : NoneOpen u.id s'.working = rw e (fill_order-NoneOpen s t price given now h) in
    (fill_refused s' u price' given' now' closed, close_refused s' u to_status given' closed)

-- Once an order is closed, a later attempt to fill or to close it changes nothing and is refused.
pub closed_once :
    (s : Session) (t : Trade) (to_status : TradeStatus) (given : Option ℕ)
    → is_open to_status ≡ false
    → (close_order s t to_status given).1 ≡ true
    → (u : Trade) (price : Decimal) (to_status' : TradeStatus) (given' : Option ℕ) (now : ℕ)
    → u.id ≡ t.id
    → let s' = (close_order s t to_status given).0 in
      (fill_order s' u price given' now ≡ (rollback s', not_open))
      × (close_order s' u to_status' given' ≡ (rollback s', false))
closed_once s t to_status given o h u price to_status' given' now e =
    let s' = (close_order s t to_status given).0 in
    let closed : NoneOpen u.id s'.working = rw e (close_order-NoneOpen s t to_status given o h) in
    (fill_refused s' u price given' now closed, close_refused s' u to_status' given' closed)
