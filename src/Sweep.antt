-- ===== src/Sweep.antt =====
-- The sweeper of resting orders (backend/services/paper_broker.py: process_open_orders and
-- _actionable). The market is a parameter: `last_price asset` is the executable price that
-- trading_service.get_last_price returns for an asset, or nothing when it raises
-- MarketDataUnavailable.
pub mod Actionable
use quantumsentinel_web.Prelude.{
  ℕ, Bool, true, false, not, ◌&&◌, ◌||◌, ◌==◌, if◌then◌else◌, Option, none, some, List, [], ◌∷◌,
  ◌++◌, update_where, select_where, order_by,
}
use quantumsentinel_web.Money.{
  Decimal, le, Side, buy, sell, OrderType, market, limit, stop, stop_limit,
}
use quantumsentinel_web.Trading.{Fill, simulate_fill, check_pending_limit_fill, stop_triggered}
use quantumsentinel_web.Ledger.{TradeStatus, is_accepted, Trade, Tables, Session, commit}
use quantumsentinel_web.Broker.{fill_order, FillOutcome}

-- `_actionable`: the price comparisons of the SQL, by the side of the order.
abbrev pub limit_reached : Side → Decimal → Decimal → Bool
limit_reached buy last limit_price = le last limit_price
limit_reached sell last limit_price = le limit_price last

abbrev pub stop_reached : Side → Decimal → Decimal → Bool
stop_reached buy last stop_price = le stop_price last
stop_reached sell last stop_price = le last stop_price

unfoldable pub actionable_row : OrderType → Side → Option Decimal → Option Decimal → Decimal → Bool
actionable_row limit side (some limit_price) stop_price last = limit_reached side last limit_price
actionable_row stop side limit_price (some stop_price) last = stop_reached side last stop_price
actionable_row stop_limit side limit_price (some stop_price) last =
    stop_reached side last stop_price
actionable_row _ _ _ _ _ = true

unfoldable pub actionable : Decimal → Trade → Bool
unfolding actionable_row
actionable last t = actionable_row t.order_type t.side t.limit_price t.stop_price last

-- What the loop body does with one order.
pub data SweepAction : Type 0 where
  fill_at : Decimal → SweepAction
  convert leave : SweepAction

abbrev pub fill_or : SweepAction → Option Decimal → SweepAction
fill_or otherwise none = otherwise
fill_or otherwise (some price) = fill_at price

unfoldable pub sweep_row :
    OrderType → Side → Option Decimal → Option Decimal → Decimal → SweepAction
sweep_row limit side (some limit_price) stop_price last =
    fill_or leave (check_pending_limit_fill side limit_price last)
sweep_row stop side limit_price (some stop_price) last =
    fill_or leave (simulate_fill side stop limit_price (some stop_price) last).filled_price
sweep_row stop_limit side limit_price (some stop_price) last =
    fill_or (if stop_triggered side stop_price last then convert else leave)
      (simulate_fill side stop_limit limit_price (some stop_price) last).filled_price
sweep_row _ _ _ _ last = fill_at last

unfoldable pub sweep_action : Decimal → Trade → SweepAction
unfolding sweep_row
sweep_action last t = sweep_row t.order_type t.side t.limit_price t.stop_price last

unfoldable pub convert_triggered : ℕ → Session → Session
convert_triggered id s = commit (record s {
  working = record s.working {
    trades =
        update_where (λ row. row.id == id && is_accepted row.status)
          (λ row. record row { order_type = limit }) s.working.trades;
  };
})

unfoldable pub sweep_one : Session → Trade → SweepAction → ℕ → Session × List (Trade × FillOutcome)
unfolding convert_triggered
sweep_one s t leave now = (s, [])
sweep_one s t convert now = (convert_triggered t.id s, [])
sweep_one s t (fill_at price) now =
    let (s', outcome) = fill_order s t price none now in (s', (t, outcome) ∷ [])

unfoldable pub sweep_trades :
    Session → List Trade → Decimal → ℕ → Session × List (Trade × FillOutcome)
unfolding sweep_one sweep_action
sweep_trades s [] last now = (s, [])
sweep_trades s (t ∷ ts) last now =
    let (s1, outcomes) = sweep_one s t (sweep_action last t) now in
    let (s2, rest) = sweep_trades s1 ts last now in (s2, outcomes ++ rest)

abbrev pub resting : ℕ → Trade → Bool
resting asset t = is_accepted t.status && t.asset == asset

unfoldable pub sweep_asset : Session → ℕ → Option Decimal → ℕ → Session × List (Trade × FillOutcome)
unfolding sweep_trades actionable
sweep_asset s asset none now = (s, [])
sweep_asset s asset (some last) now =
    sweep_trades s
      (order_by (λ t. t.submitted_at)
        (select_where (λ t. resting asset t && actionable last t) s.working.trades))
      last now

-- `SELECT DISTINCT asset`
unfoldable pub add_distinct : ℕ → List ℕ → List ℕ
add_distinct asset [] = asset ∷ []
add_distinct asset (a ∷ rest) = if a == asset then a ∷ rest else a ∷ add_distinct asset rest

unfoldable pub resting_assets : List Trade → List ℕ
unfolding add_distinct
resting_assets [] = []
resting_assets (t ∷ ts) =
    let rest = resting_assets ts in if is_accepted t.status then add_distinct t.asset rest else rest

unfoldable pub sweep_assets :
    (ℕ → Option Decimal) → Session → List ℕ → ℕ → Session × List (Trade × FillOutcome)
unfolding sweep_asset
sweep_assets last_price s [] now = (s, [])
sweep_assets last_price s (asset ∷ assets) now =
    let (s1, outcomes) = sweep_asset s asset (last_price asset) now in
    let (s2, rest) = sweep_assets last_price s1 assets now in (s2, outcomes ++ rest)

unfoldable pub process_open_orders :
    (ℕ → Option Decimal) → Session → ℕ → Session × List (Trade × FillOutcome)
unfolding resting_assets sweep_assets
process_open_orders last_price s now =
    sweep_assets last_price s (resting_assets s.working.trades) now
