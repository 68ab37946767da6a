-- ===== src/History/Outcomes.antt =====
-- The lifecycle of orders over histories of backend/services/paper_broker.py.
use quantumsentinel_web.Prelude.{ℕ, ◌≡◌, refl, true, false, List, [], ◌∷◌, arith, ◌==◌, ◌&&◌}
use quantumsentinel_web.Money.{Decimal, Side, buy, sell, limit}
use quantumsentinel_web.Ledger.{
  TradeStatus, Trade, Tables, Session, is_open, is_pending, pending, accepted, filled, release,
}
use quantumsentinel_web.Positions.{rebuild_positions}
use quantumsentinel_web.Broker.{open_row, cas_status, fill_values, settle}
use quantumsentinel_web.History.{Op, run}
use quantumsentinel_web.History.Keeps.{Keeps, Both, Settles}
use quantumsentinel_web.History.Run.{run-Both}
use quantumsentinel_web.History.Lifecycle.{
  Moves, stay, accept, close, RowEvolves, Evolves, Evolves-refl, Evolves-trans, Evolves-append,
  Evolves-update_where,
}

set_status-RowEvolves :
    (t : Trade) (to_status : TradeStatus)
    → Moves t.status to_status
    → RowEvolves t (record t { status = to_status })
set_status-RowEvolves t to_status m = record {
  same_id = refl;
  same_user = refl;
  same_asset = refl;
  same_side = refl;
  same_quantity = refl;
  same_limit = refl;
  same_stop = refl;
  moves = m;
  final_price = λ _. refl;
  final_time = λ _. refl;
}

open_row_open : (id : ℕ) (t : Trade) → open_row id t ≡ true → is_open t.status ≡ true
open_row_open id t h = ground arith

filled_closed : is_open filled ≡ false
unfolding is_open
filled_closed = refl

fill-RowEvolves :
    (id : ℕ) (price : Decimal) (now : ℕ) (t : Trade)
    → open_row id t ≡ true
    → RowEvolves t (fill_values price now t)
unfolding fill_values
fill-RowEvolves id price now t h = record {
  same_id = refl;
  same_user = refl;
  same_asset = refl;
  same_side = refl;
  same_quantity = refl;
  same_limit = refl;
  same_stop = refl;
  moves = close (open_row_open id t h) filled_closed;
  final_price = λ o. cc (open_row_open id t h);
  final_time = λ o. cc (open_row_open id t h);
}

accept_move : (a : TradeStatus) → is_pending a ≡ true → Moves a accepted
unfolding is_pending
accept_move pending e = accept
accept_move accepted e = stay
accept_move _ e = cc

accept-RowEvolves :
    (id : ℕ) (t : Trade)
    → (t.id == id && is_pending t.status) ≡ true
    → RowEvolves t (record t { status = accepted })
accept-RowEvolves id t h = set_status-RowEvolves t accepted (accept_move t.status (ground arith))

retype-RowEvolves : (t : Trade) → RowEvolves t (record t { order_type = limit })
retype-RowEvolves t = record {
  same_id = refl;
  same_user = refl;
  same_asset = refl;
  same_side = refl;
  same_quantity = refl;
  same_limit = refl;
  same_stop = refl;
  moves = stay;
  final_price = λ _. refl;
  final_time = λ _. refl;
}

settle-trades :
    (P : List Trade → Type 0) (side : Side) (t : Trade) (cost reserved : ℕ) (w : Tables)
    → P w.trades
    → Settles (λ v. P v.trades) (settle side t cost reserved w)
unfolding settle
settle-trades P buy t cost reserved w h = ground arith
settle-trades P sell t cost reserved w h = ground arith

module _ (ts : List Trade) where
  outcomes : Keeps (λ w. Evolves ts w.trades)
  unfolding cas_status rebuild_positions release
  outcomes = record {
    open_account = λ user w h. h;
    reserve = λ user amount w h. h;
    give_back = λ user amount w h. h;
    close = λ id to_status w o h. Evolves-trans h (
        Evolves-update_where (open_row id) _
          (λ t p. set_status-RowEvolves t to_status (close (open_row_open id t p) o)) w.trades);
    accept = λ id w h.
        Evolves-trans h (Evolves-update_where _ _ (λ t p. accept-RowEvolves id t p) w.trades);
    fill = λ id price now w h.
        Evolves-trans h
          (Evolves-update_where (open_row id) _ (λ t p. fill-RowEvolves id price now t p) w.trades);
    pays = λ side t cost reserved w h. settle-trades (Evolves ts) side t cost reserved w h;
    rebuild = λ user w h. h;
    retype =
        λ p w h. Evolves-trans h (Evolves-update_where p _ (λ t e. retype-RowEvolves t) w.trades);
    insert = λ t w h. Evolves-trans h (Evolves-append w.trades (t ∷ []));
  }

-- From a session with nothing uncommitted, over every history: each order that was in the table is
-- still in its place with the same owner, asset, side, quantity and prices; its status moved at most
-- from pending to accepted or from open to closed; and if it was closed, its fill price and time are
-- what they were.
pub run-Evolves :
    (s : Session) (ops : List Op)
    → s.working ≡ s.committed
    → Both (λ w. Evolves s.committed.trades w.trades) (run s ops)
run-Evolves s ops e = run-Both (outcomes s.committed.trades) s ops (record {
  committed = Evolves-refl s.committed.trades;
  working = rw e (Evolves-refl s.committed.trades);
})
