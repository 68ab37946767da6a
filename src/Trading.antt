-- ===== src/Trading.antt =====
-- The fill rules of the paper broker (backend/services/trading_service.py: simulate_fill and
-- check_pending_limit_fill), for a last price that the caller observed. Prices are exact decimals,
-- where the source rounds and compares 64-bit floats.
pub mod Limits
use quantumsentinel_web.Prelude.{ℕ, Bool, false, ◌&&◌, ◌||◌, if◌then◌else◌, Option, none, some}
use quantumsentinel_web.Money.{
  Decimal, lt, le, is_zero, round_places, Side, buy, sell, OrderType, market, limit, stop,
  stop_limit,
}

pub data FillStatus : Type 0 where
  filled accepted : FillStatus

pub record Fill : Type 0 where
  pub status : FillStatus
  pub filled_price : Option Decimal

abbrev pub filled_at : Decimal → Fill
filled_at price = record { status = filled; filled_price = some price }

abbrev pub rests : Fill
rests = record { status = accepted; filled_price = none }

abbrev pub one_dollar : Decimal
one_dollar = record { coeff = 1; exp = 0 }

-- `round(price, 6 if reference < 1 else 2)`
unfoldable pub round_quote : Decimal → Decimal → Decimal
round_quote reference price =
    if lt reference one_dollar then round_places 6 price else round_places 2 price

unfoldable pub min_price : Decimal → Decimal → Decimal
min_price a b = if lt b a then b else a

unfoldable pub max_price : Decimal → Decimal → Decimal
max_price a b = if lt a b then b else a

-- `last_price >= (stop_price or inf)` of a buy, `last_price <= (stop_price or 0)` of a sell: a
-- missing stop price and one of zero are both falsy
unfoldable pub triggered : Side → Decimal → Option Decimal → Bool
triggered buy last none = false
triggered buy last (some s) = if is_zero s then false else le s last
triggered sell last none = is_zero last
triggered sell last (some s) = le last s

unfoldable pub is_marketable : Side → Decimal → Decimal → Bool
is_marketable buy last limit_price = le last limit_price
is_marketable sell last limit_price = le limit_price last

unfoldable pub improved_price : Side → Decimal → Decimal → Decimal
unfolding min_price max_price
improved_price buy last limit_price = min_price last limit_price
improved_price sell last limit_price = max_price last limit_price

unfoldable pub limit_fill : Side → Option Decimal → Decimal → Fill
unfolding is_marketable improved_price round_quote
limit_fill side none last = filled_at last
limit_fill side (some limit_price) last =
    let price = improved_price side last limit_price in
    if is_marketable side last limit_price then filled_at (round_quote price price) else rests

unfoldable pub simulate_fill : Side → OrderType → Option Decimal → Option Decimal → Decimal → Fill
unfolding triggered limit_fill
simulate_fill side market limit_price stop_price last = filled_at last
simulate_fill side stop limit_price stop_price last =
    if triggered side last stop_price then filled_at last else rests
simulate_fill side stop_limit limit_price stop_price last =
    if triggered side last stop_price then limit_fill side limit_price last else rests
simulate_fill side limit limit_price stop_price last = limit_fill side limit_price last

unfoldable pub check_pending_limit_fill : Side → Decimal → Decimal → Option Decimal
unfolding is_marketable improved_price round_quote
check_pending_limit_fill side limit_price last =
    if is_marketable side last limit_price
    then some (round_quote last (improved_price side last limit_price))
    else none

-- `stop_triggered` of paper_broker.py
unfoldable pub stop_triggered : Side → Decimal → Decimal → Bool
stop_triggered buy stop_price last = le stop_price last
stop_triggered sell stop_price last = le last stop_price
