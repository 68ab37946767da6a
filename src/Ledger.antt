-- ===== src/Ledger.antt =====
-- The tables that the paper broker writes (backend/models.py: Trade, PaperAccount, Position), a
-- database session over them, and the cash ledger of backend/services/paper_broker.py.
-- Ids, users and assets are strings that the code only compares: numbers here. Times are numbers.
-- Columns that no decision reads (the timestamps of an account, the signature of a trade) are left
-- out. A BigInteger that may not fall below zero is an ℕ, and a guard that subtracts in SQL is
-- written as the equivalent sum.
use quantumsentinel_web.Prelude.{
  ℕ, ◌+◌, ◌-◌, min, Bool, true, false, ◌&&◌, leb, ◌==◌, if◌then◌else◌, Option, none, some, List, [],
  ◌∷◌, ◌++◌, update_where, count_where, select_where, first_where,
}
use quantumsentinel_web.Prelude.Int.{ℤ, pos, pos_part, ◌+ℤ◌, ◌-ℤ◌}
use quantumsentinel_web.Money.{
  Decimal, Side, buy, sell, OrderType, market, limit, stop, stop_limit, notional_micros,
  reservation_micros, to_micros,
}

pub data TradeStatus : Type 0 where
  pending accepted filled expired rejected cancelled : TradeStatus

-- `in OPEN_STATUSES`
unfoldable pub is_open : TradeStatus → Bool
is_open pending = true
is_open accepted = true
is_open _ = false

unfoldable pub is_filled : TradeStatus → Bool
is_filled filled = true
is_filled _ = false

unfoldable pub is_pending : TradeStatus → Bool
is_pending pending = true
is_pending _ = false

unfoldable pub is_accepted : TradeStatus → Bool
is_accepted accepted = true
is_accepted _ = false

pub data TimeInForce : Type 0 where
  day gtc ioc : TimeInForce

pub record Trade : Type 0 where
  pub id : ℕ
  pub user_id : ℕ
  pub asset : ℕ
  pub side : Side
  pub quantity : Decimal
  pub order_type : OrderType
  pub limit_price : Option Decimal
  pub stop_price : Option Decimal
  pub time_in_force : TimeInForce
  pub status : TradeStatus
  pub filled_price : Option Decimal
  pub submitted_at : ℕ
  pub filled_at : Option ℕ

pub record PaperAccount : Type 0 where
  pub user_id : ℕ
  pub cash_micros : ℕ
  pub reserved_micros : ℕ

pub record Position : Type 0 where
  pub user_id : ℕ
  pub asset : ℕ
  pub quantity : Decimal

pub record Tables : Type 0 where
  pub accounts : List PaperAccount
  pub trades : List Trade
  pub positions : List Position

-- What other sessions see, and what this transaction has written.
pub record Session : Type 0 where
  pub committed : Tables
  pub working : Tables

abbrev pub commit : Session → Session
commit s = record s { committed = s.working }

abbrev pub rollback : Session → Session
rollback s = record s { working = s.committed }

-- The reservation of a persisted order: a market order never rests, and holds none.
unfoldable pub trade_reservation : OrderType → Trade → ℕ
trade_reservation market t = 0
trade_reservation limit t =
    reservation_micros t.side t.quantity limit t.limit_price t.stop_price none
trade_reservation stop t = reservation_micros t.side t.quantity stop t.limit_price t.stop_price none
trade_reservation stop_limit t =
    reservation_micros t.side t.quantity stop_limit t.limit_price t.stop_price none

unfoldable pub trade_reservation_micros : Trade → ℕ
unfolding trade_reservation
trade_reservation_micros t = trade_reservation t.order_type t

-- `PAPER_INITIAL_CASH`
abbrev pub initial_cash : Decimal
initial_cash = record { coeff = 100000; exp = 0 }

unfoldable pub signed_notional : Side → ℕ → ℤ → ℤ
signed_notional sell amount cash = cash +ℤ pos amount
signed_notional buy amount cash = cash -ℤ pos amount

-- One trade of the migration loop of `get_or_create_account`, on (cash, reserved).
unfoldable pub replay_trade : Trade → Option Decimal → ℤ → ℕ → ℤ × ℕ
unfolding is_filled is_open signed_notional
replay_trade t (some price) cash reserved =
    if is_filled t.status
    then (signed_notional t.side (notional_micros t.quantity price) cash, reserved)
    else if is_open t.status
    then (cash, reserved + trade_reservation_micros t)
    else (cash, reserved)
replay_trade t none cash reserved =
    if is_open t.status then (cash, reserved + trade_reservation_micros t) else (cash, reserved)

unfoldable pub replay_trades : List Trade → ℤ → ℕ → ℤ × ℕ
unfolding replay_trade
replay_trades [] cash reserved = (cash, reserved)
replay_trades (t ∷ ts) cash reserved =
    let (cash', reserved') = replay_trade t t.filled_price cash reserved in
    replay_trades ts cash' reserved'

abbrev pub account_of : ℕ → PaperAccount → Bool
account_of user a = a.user_id == user

-- The ledger row that a user without one is given.
unfoldable pub opened_account : ℕ → List Trade → PaperAccount
unfolding replay_trades
opened_account user trades =
    let (signed_cash, reserved) =
      replay_trades (select_where (λ t. t.user_id == user) trades) (pos (to_micros initial_cash))
        0 in
    let cash = pos_part signed_cash in
    record { user_id = user; cash_micros = cash; reserved_micros = min reserved cash }

-- The row is committed before anybody else opens it: the retry after an IntegrityError reads the
-- row of the winner, which is the case `some`.
unfoldable pub get_or_create_account : Session → ℕ → Session × PaperAccount
unfolding opened_account
get_or_create_account s user = elim (first_where (account_of user) s.working.accounts) [
  | some account ↦ (s, account)
  | none ↦
      let account = opened_account user s.working.trades in
      let tables = record s.working { accounts = s.working.accounts ++ account ∷ [] } in
      (commit (record s { working = tables }), account)
]

-- The WHERE clause of the reservation, `cash - reserved >= amount`.
unfoldable pub can_reserve : ℕ → ℕ → PaperAccount → Bool
can_reserve user amount a = a.user_id == user && leb (a.reserved_micros + amount) a.cash_micros

unfoldable pub try_reserve : Session → ℕ → ℕ → Session × Bool
unfolding can_reserve
try_reserve s user amount =
    if amount == 0
    then (s, true)
    else let accounts =
        update_where (can_reserve user amount)
          (λ a. record a { reserved_micros = a.reserved_micros + amount }) s.working.accounts in
      (
        record s { working = record s.working { accounts = accounts } },
        count_where (can_reserve user amount) s.working.accounts == 1,
      )

-- `case((reserved >= amount, reserved - amount), else_=0)`
unfoldable pub released : ℕ → ℕ → ℕ
released amount reserved = if leb amount reserved then reserved - amount else 0

unfoldable pub release : ℕ → ℕ → Tables → Tables
unfolding released
release user amount w = record w {
  accounts =
      update_where (account_of user)
        (λ a. record a { reserved_micros = released amount a.reserved_micros }) w.accounts;
}
