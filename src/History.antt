-- ===== src/History.antt =====
-- Histories of the paper broker: users open accounts, place and cancel orders, and the sweeper runs.
-- Operations of several processes appear in the order in which their transactions commit, which the
-- row locks of the database make a total order for one user.
pub mod Keeps
mod Run
pub mod Solvency
pub mod Lifecycle
pub mod Outcomes
use quantumsentinel_web.Prelude.{ℕ, Bool, Option, List, [], ◌∷◌}
use quantumsentinel_web.Money.{Decimal}
use quantumsentinel_web.Ledger.{Trade, Session, get_or_create_account}
use quantumsentinel_web.Orders.{place_order, cancel_order}
use quantumsentinel_web.Sweep.{process_open_orders}

pub data Op : Type 0 where
  opens : ℕ → Op
  places : Trade → Decimal → Bool → Bool → ℕ → Op
  cancels : ℕ → ℕ → Op
  sweeps : (ℕ → Option Decimal) → ℕ → Op

unfoldable pub step : Session → Op → Session
step s (opens user) = (get_or_create_account s user).0
step s (places t last quote_stale insert_ok now) =
    (place_order s t last quote_stale insert_ok now).0
step s (cancels user id) = (cancel_order s user id).0
step s (sweeps last_price now) = (process_open_orders last_price s now).0

unfoldable pub run : Session → List Op → Session
unfolding step
run s [] = s
run s (op ∷ ops) = run (step s op) ops
