-- ===== src/Checks/Broker.antt =====
-- The paper broker: one user with an account of 1,000 dollars, who buys 2 shares at a limit of 50.
use quantumsentinel_web.Prelude.{
  ℕ, ◌≡◌, ◌≢◌, ◌+◌, ◌*◌, ◌^◌, ◌<◌, ◌≤◌, ◌↔◌, refl, true, false, none, some, List, [], ◌∷◌, arith,
  count_where, select_where,
}
use quantumsentinel_web.Money.{
  Decimal, decimal_zero, add, sub_clamped, micros_per_dollar, Side, buy, sell, limit,
  notional_micros, to_micros, reservation_micros, mul, lt,
}
use quantumsentinel_web.Trading.{simulate_fill, filled_at}
use quantumsentinel_web.Ledger.{
  Trade, TradeStatus, pending, accepted, filled, cancelled, day, Tables, Session, rollback, is_open,
  released, trade_reservation_micros,
}
use quantumsentinel_web.Broker.{fill_order, close_order, not_open}
use quantumsentinel_web.History.{Op, opens, places, cancels, sweeps, run}
use quantumsentinel_web.History.Keeps.{Both}
use quantumsentinel_web.History.Lifecycle.{Evolves}
use quantumsentinel_web.History.Solvency.{AllSolvent, run-AllSolvent}
use quantumsentinel_web.History.Outcomes.{run-Evolves}
use quantumsentinel_web.Broker.Once.{filled_once}
use quantumsentinel_web.Broker.Balance.{
  Moved, cash_total, reserved_of, open_reserved, fill_order-cash, close_order_exact,
}
use quantumsentinel_web.Sweep.{actionable, sweep_action, leave}
use quantumsentinel_web.Sweep.Actionable.{actionable_exact}
use quantumsentinel_web.Positions.{hold, hold_all, hold_float, rebuild_positions, position_rows}
use quantumsentinel_web.Positions.Rebuilt.{position_of, add_up, fills_in, rebuild_positions-exact}
use quantumsentinel_web.Money.Float.{finite, float_zero, from_micros}
use quantumsentinel_web.Trading.Limits.{pending-eq-arrival, buy_above_limit, mills, cents}
use quantumsentinel_web.Trading.{check_pending_limit_fill}
use quantumsentinel_web.Money.Rounding.{to_micros_near}

abbrev dollars : ℕ → Decimal
dollars n = record { coeff = n; exp = 0 }

abbrev order : TradeStatus → Trade
order status = record {
  id = 7;
  user_id = 1;
  asset = 3;
  side = buy;
  quantity = dollars 2;
  order_type = limit;
  limit_price = some (dollars 50);
  stop_price = none;
  time_in_force = day;
  status = status;
  filled_price = none;
  submitted_at = 1;
  filled_at = none;
}

abbrev tables : List Trade → ℕ → Tables
tables trades reserved = record {
  accounts = record { user_id = 1; cash_micros = 1000000000; reserved_micros = reserved } ∷ [];
  trades = trades;
  positions = [];
}

abbrev start : Session
start = record { committed = tables [] 0; working = tables [] 0 }

abbrev resting : Session
resting = record {
  committed = tables (order accepted ∷ []) 100000000;
  working = tables (order accepted ∷ []) 100000000;
}

abbrev history : List Op
history =
    opens 1
    ∷ places (order pending) (dollars 60) false true 2
    ∷ sweeps (λ asset. some (dollars 49)) 3
    ∷ cancels 1 7
    ∷ []

run-AllSolvent_example : Both AllSolvent (run start history)
run-AllSolvent_example =
    run-AllSolvent start history
      record { committed = (omega arith, tt); working = (omega arith, tt) }

run-Evolves_example : Both (λ w. Evolves resting.committed.trades w.trades) (run resting history)
run-Evolves_example = run-Evolves resting history refl

filled_once_example :
    let s = (fill_order resting (order accepted) (dollars 49) none 5).0 in
    (fill_order s (order accepted) (dollars 48) none 6 ≡ (rollback s, not_open))
    × (close_order s (order accepted) cancelled none ≡ (rollback s, false))
unfolding fill_order count_where is_open released trade_reservation_micros reservation_micros
    notional_micros to_micros mul
filled_once_example =
    filled_once resting (order accepted) (dollars 49) none 5 refl (order accepted) (dollars 48)
      cancelled none 6 refl

fill_order-cash_example :
    Moved buy
      (notional_micros (dollars 2) (dollars 49))
      (cash_total resting.working)
      (cash_total (fill_order resting (order accepted) (dollars 49) none 5).0.committed)
unfolding fill_order count_where is_open released trade_reservation_micros reservation_micros
    notional_micros to_micros mul
fill_order-cash_example = fill_order-cash resting (order accepted) (dollars 49) none 5 refl refl

close_order_exact_example :
    let w = (close_order resting (order accepted) cancelled none).0.committed in
    (cash_total w ≡ cash_total resting.working)
    × (reserved_of 1 w + trade_reservation_micros (order accepted) ≡ reserved_of 1 resting.working)
    × (open_reserved 1 w + trade_reservation_micros (order accepted)
        ≡ open_reserved 1 resting.working)
unfolding close_order is_open count_where trade_reservation_micros reservation_micros
    notional_micros to_micros mul
close_order_exact_example =
    close_order_exact resting (order accepted) cancelled refl refl ((λ e. omega arith), tt)
      ((λ e. (refl, refl)), tt) refl

actionable_exact_example :
    (actionable (dollars 49) (order accepted) ≡ true)
    ↔ (sweep_action (dollars 49) (order accepted) ≢ leave)
actionable_exact_example = actionable_exact (dollars 49) (order accepted) (λ d e. cc)

rebuild_positions-exact_example :
    select_where (position_of 1 3) (rebuild_positions 1 resting.working).positions
    ≡ position_rows 1 3 (add_up (fills_in 1 3 resting.working.trades) float_zero)
rebuild_positions-exact_example = rebuild_positions-exact 1 3 resting.working

abbrev tenths : ℕ → Decimal
tenths n = record { coeff = n; exp = 1 }

abbrev filled_trade : ℕ → Side → Decimal → Trade
filled_trade time side quantity = record (order filled) {
  side = side;
  quantity = quantity;
  filled_at = some time;
}

-- Tenths of a share bought and sold again: the decimals leave nothing, the floats 2 ^ -54.
abbrev sold_again : List Trade
sold_again =
    filled_trade 1 buy (tenths 1)
    ∷ filled_trade 2 buy (tenths 2)
    ∷ filled_trade 3 sell (tenths 3)
    ∷ []

floats_leave_some : add_up sold_again float_zero ≡ finite false (2 ^ 1020)
unfolding add_up hold_float
floats_leave_some = refl

decimals_leave_none : hold_all sold_again decimal_zero ≡ record { coeff = 0; exp = 1 }
unfolding hold_all hold sub_clamped add
decimals_leave_none = refl

pending-eq-arrival_example :
    check_pending_limit_fill buy (dollars 50) (dollars 49)
    ≡ (simulate_fill buy limit (some (dollars 50)) none (dollars 49)).filled_price
pending-eq-arrival_example = pending-eq-arrival buy (dollars 50) (dollars 49) none

buy_above_limit_example :
    (simulate_fill buy limit (some (mills 1006)) none (mills 1006) ≡ filled_at (cents 101))
    × (lt (mills 1006) (cents 101) ≡ true)
buy_above_limit_example = buy_above_limit 100 (omega arith)

dollar_and_a_half : from_micros 1500000 ≡ finite false (3 * 2 ^ 1073)
unfolding from_micros
dollar_and_a_half = refl

to_micros_near_example :
    (2 * (15 * micros_per_dollar) < 2 * (to_micros (mills 15) * 10 ^ 3) + 10 ^ 3)
    × (2 * (to_micros (mills 15) * 10 ^ 3) ≤ 2 * (15 * micros_per_dollar) + 10 ^ 3)
to_micros_near_example = to_micros_near (mills 15)
