-- ===== src/Sweep/Actionable.antt =====
-- The query of the sweeper and its loop (backend/services/paper_broker.py: _actionable,
-- process_open_orders).
use quantumsentinel_web.Prelude.{◌≡◌, ◌≢◌, ◌↔◌, true, false, Option, none, some, arith}
use quantumsentinel_web.Money.{
  Decimal, is_zero, Side, buy, sell, OrderType, market, limit, stop, stop_limit,
}
use quantumsentinel_web.Trading.{simulate_fill, check_pending_limit_fill, stop_triggered}
use quantumsentinel_web.Ledger.{Trade}
use quantumsentinel_web.Sweep.{actionable_row, actionable, sweep_row, sweep_action, leave}

row_iff :
    (o : OrderType) (side : Side) (l s : Option Decimal) (last : Decimal)
    → ((d : Decimal) → s ≡ some d → is_zero d ≡ false)
    → (actionable_row o side l s last ≡ true) ↔ (sweep_row o side l s last ≢ leave)
unfolding actionable_row sweep_row simulate_fill check_pending_limit_fill stop_triggered
row_iff market side l s last h = ground arith
row_iff limit buy none s last h = ground arith
row_iff limit sell none s last h = ground arith
row_iff limit buy (some l) s last h = ground arith
row_iff limit sell (some l) s last h = ground arith
row_iff stop buy l none last h = ground arith
row_iff stop sell l none last h = ground arith
row_iff stop buy l (some s) last h = ground (arith, h s)
row_iff stop sell l (some s) last h = ground (arith, h s)
row_iff stop_limit buy l none last h = ground arith
row_iff stop_limit sell l none last h = ground arith
row_iff stop_limit buy l (some s) last h = ground (arith, h s)
row_iff stop_limit sell l (some s) last h = ground (arith, h s)

-- Whatever the price, the query selects an order exactly when the loop fills it or turns it into a
-- limit order, for orders whose stop price, if they have one, is not zero.
pub actionable_exact :
    (last : Decimal) (t : Trade)
    → ((d : Decimal) → t.stop_price ≡ some d → is_zero d ≡ false)
    → (actionable last t ≡ true) ↔ (sweep_action last t ≢ leave)
unfolding actionable sweep_action
actionable_exact last t h = row_iff t.order_type t.side t.limit_price t.stop_price last h
