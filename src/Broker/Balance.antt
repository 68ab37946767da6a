-- ===== src/Broker/Balance.antt =====
-- The money of the ledger under a fill and a close (backend/services/paper_broker.py).
use quantumsentinel_web.Prelude.{
  ℕ, ◌+◌, ◌≤◌, ◌≡◌, refl, true, false, Option, none, arith, ◌==◌, ◌&&◌, All, count_where, sum_by,
  sum_by-update_where_sub, sum_by-update_where-All, sum_by-update_where_add,
  sum_by-update_where_same, if◌then◌else◌,
}
use quantumsentinel_web.Money.{
  Decimal, Side, buy, sell, notional_micros, OrderType, market, limit, stop, stop_limit,
}
use quantumsentinel_web.Ledger.{
  TradeStatus, is_open, Trade, PaperAccount, Tables, Session, released, release, account_of,
  trade_reservation_micros, trade_reservation,
}
use quantumsentinel_web.Positions.{rebuild_positions}
use quantumsentinel_web.Broker.{
  open_row, cas_status, close_order, fill_order, fill_values, outcome_filled, Settlement, settled,
  refused, settle, finish_fill, reserved_or, can_pay, pay,
}

abbrev pub cash_total : Tables → ℕ
cash_total w = sum_by (λ a. a.cash_micros) w.accounts

-- The reserved cash of one user.
abbrev pub reserved_by : ℕ → PaperAccount → ℕ
reserved_by user a = if a.user_id == user then a.reserved_micros else 0

abbrev pub reserved_of : ℕ → Tables → ℕ
reserved_of user w = sum_by (reserved_by user) w.accounts

-- What a fill at cost `cost` does to the total cash.
abbrev pub Moved : Side → ℕ → ℕ → ℕ → Type 0
Moved buy cost before after = after + cost ≡ before
Moved sell cost before after = after ≡ before + cost

settle-cash :
    (side : Side) (t : Trade) (cost reserved : ℕ) (w v : Tables)
    → count_where (account_of t.user_id) w.accounts ≡ 1
    → settle side t cost reserved w ≡ settled v
    → Moved side cost (cash_total w) (cash_total v)
unfolding settle
settle-cash buy t cost reserved w v one e = ground (
  arith,
  sum_by-update_where_sub (can_pay t.user_id cost reserved) (pay cost reserved)
      (λ (a : PaperAccount). a.cash_micros) cost
      (λ (a : PaperAccount) p. unfold can_pay pay in ground arith) w.accounts,
)
settle-cash sell t cost reserved w v one e = ground (
  arith,
  sum_by-update_where_add (account_of t.user_id)
      (λ (a : PaperAccount). record a { cash_micros = a.cash_micros + cost })
      (λ (a : PaperAccount). a.cash_micros) cost (λ (a : PaperAccount) p. refl) w.accounts,
)

finish_fill-cash :
    (side : Side) (s : Session) (t : Trade) (cost reserved before : ℕ) (r : Settlement)
    → ((v : Tables) → r ≡ settled v → Moved side cost before (cash_total v))
    → (finish_fill s t reserved r).1 ≡ outcome_filled
    → Moved side cost before (cash_total (finish_fill s t reserved r).0.committed)
unfolding finish_fill rebuild_positions
finish_fill-cash side s t cost reserved before (settled v) k h = k v refl
finish_fill-cash side s t cost reserved before (refused reason) k h = cc

-- A fill commits the exchange of exactly the notional value: the cash of all accounts falls by it
-- when a buy is filled and grows by it when a sell is, where the user has one account.
pub fill_order-cash :
    (s : Session) (t : Trade) (price : Decimal) (given : Option ℕ) (now : ℕ)
    → count_where (account_of t.user_id) s.working.accounts ≡ 1
    → (fill_order s t price given now).1 ≡ outcome_filled
    → Moved t.side
        (notional_micros t.quantity price)
        (cash_total s.working)
        (cash_total (fill_order s t price given now).0.committed)
unfolding fill_order
fill_order-cash s t price given now one h =
    let w = (cas_status t.id (fill_values price now) s.working).0 in
    let reserved = reserved_or given t in
    let cost = notional_micros t.quantity price in
    let accounts_kept : w.accounts ≡ s.working.accounts = unfold cas_status in refl in
    let done =
      finish_fill-cash t.side (record s { working = w }) t cost reserved (cash_total s.working)
        (settle t.side t cost reserved w) (λ v e. settle-cash t.side t cost reserved w v one e) in
    ground (arith, done)

-- The cash that open orders of a user hold.
abbrev pub open_reservation : ℕ → Trade → ℕ
open_reservation user t =
    if t.user_id == user && is_open t.status then trade_reservation_micros t else 0

abbrev pub open_reserved : ℕ → Tables → ℕ
open_reserved user w = sum_by (open_reservation user) w.trades

-- The rows with the id of `t` are the order `t` as far as its user and its reservation go.
abbrev pub Agrees : Trade → Trade → Type 0
Agrees t row =
    row.id ≡ t.id
    → (row.user_id ≡ t.user_id) × (trade_reservation_micros row ≡ trade_reservation_micros t)

-- The account of `user` has reserved `amount` at least.
abbrev pub HasReserved : ℕ → ℕ → PaperAccount → Type 0
HasReserved user amount a = a.user_id ≡ user → amount ≤ a.reserved_micros

reservation_by-status :
    (o : OrderType) (row : Trade) (st : TradeStatus)
    → trade_reservation o (record row { status = st }) ≡ trade_reservation o row
unfolding trade_reservation
reservation_by-status market row st = refl
reservation_by-status limit row st = refl
reservation_by-status stop row st = refl
reservation_by-status stop_limit row st = refl

reservation-status :
    (row : Trade) (st : TradeStatus)
    → trade_reservation_micros (record row { status = st }) ≡ trade_reservation_micros row
unfolding trade_reservation_micros
reservation-status row st = reservation_by-status row.order_type row st

closing-releases :
    (t row : Trade) (to_status : TradeStatus)
    → is_open to_status ≡ false
    → trade_reservation_micros (record row { status = to_status }) ≡ trade_reservation_micros row
    → Agrees t row
    → open_row t.id row ≡ true
    → open_reservation t.user_id (record row { status = to_status }) + trade_reservation_micros t
      ≡ open_reservation t.user_id row
closing-releases t row to_status o same agrees p = ground arith

module _ (s : Session) (t : Trade) (to_status : TradeStatus) where
  abbrev after_close : Tables
  after_close = (close_order s t to_status none).0.committed

  close_order-cash :
      (close_order s t to_status none).1 ≡ true → cash_total after_close ≡ cash_total s.working
  unfolding close_order cas_status release
  close_order-cash h = ground (
    arith,
    sum_by-update_where_same (account_of t.user_id)
        (λ (a : PaperAccount). record a {
          reserved_micros = released (trade_reservation_micros t) a.reserved_micros;
        })
        (λ (a : PaperAccount). a.cash_micros) (λ (a : PaperAccount) p. refl) s.working.accounts,
  )

  close_order-reserved :
      count_where (account_of t.user_id) s.working.accounts ≡ 1
      → All (HasReserved t.user_id (trade_reservation_micros t)) s.working.accounts
      → (close_order s t to_status none).1 ≡ true
      → reserved_of t.user_id after_close + trade_reservation_micros t
        ≡ reserved_of t.user_id s.working
  unfolding close_order cas_status release reserved_or
  close_order-reserved one has h = ground (
    arith,
    sum_by-update_where-All (account_of t.user_id)
        (λ (a : PaperAccount). record a {
          reserved_micros = released (trade_reservation_micros t) a.reserved_micros;
        })
        (HasReserved t.user_id (trade_reservation_micros t)) (reserved_by t.user_id)
        (trade_reservation_micros t)
        (λ (a : PaperAccount) q p. unfold released in ground (arith, q)) s.working.accounts has,
  )

  close_order-open :
      is_open to_status ≡ false
      → All (Agrees t) s.working.trades
      → (close_order s t to_status none).1 ≡ true
      → open_reserved t.user_id after_close + trade_reservation_micros t
        ≡ open_reserved t.user_id s.working
  unfolding close_order cas_status release reserved_or
  close_order-open o agrees h = ground (
    arith,
    sum_by-update_where-All (open_row t.id) (λ (row : Trade). record row { status = to_status })
        (Agrees t) (open_reservation t.user_id) (trade_reservation_micros t)
        (λ (row : Trade) q p.
          closing-releases t row to_status o (reservation-status row to_status) q p)
        s.working.trades agrees,
  )

-- Closing an open order commits the release of exactly the cash that it held: no cash moves, the
-- user's reserved cash falls by the order's reservation, and so does what the user's open orders
-- hold. It needs that no other reservation is given, that the user has one account, which has
-- reserved at least the order's reservation, and that the rows with the order's id have its user and
-- its reservation.
pub close_order_exact :
    (s : Session) (t : Trade) (to_status : TradeStatus)
    → is_open to_status ≡ false
    → count_where (account_of t.user_id) s.working.accounts ≡ 1
    → All (HasReserved t.user_id (trade_reservation_micros t)) s.working.accounts
    → All (Agrees t) s.working.trades
    → (close_order s t to_status none).1 ≡ true
    → let w = (close_order s t to_status none).0.committed in
      (cash_total w ≡ cash_total s.working)
      × (reserved_of t.user_id w + trade_reservation_micros t ≡ reserved_of t.user_id s.working)
      × (open_reserved t.user_id w + trade_reservation_micros t ≡ open_reserved t.user_id s.working)
close_order_exact s t to_status o one has agrees h = (
  close_order-cash s t to_status h,
  close_order-reserved s t to_status one has h,
  close_order-open s t to_status o agrees h,
)
