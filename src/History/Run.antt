-- ===== src/History/Run.antt =====
-- Predicates of the tables under each operation of backend/services/paper_broker.py and its histories.
use quantumsentinel_web.Prelude.{
  ℕ, ◌&&◌, ◌==◌, Bool, true, false, Option, none, some, List, [], ◌∷◌, arith, if_both, first_where,
  order_by, select_where, refl,
}
use quantumsentinel_web.Money.{Decimal}
use quantumsentinel_web.Ledger.{
  Session, Trade, Tables, TimeInForce, day, gtc, ioc, expired, cancelled, commit, is_accepted,
  is_open,
}
use quantumsentinel_web.Orders.{
  convert_to_limit, rest_order, close_or_rest, execute_fill, insert_order, place_unused,
  route_order, place_order, cancel_row, cancel_order, add_trade, trade_with_id,
}
use quantumsentinel_web.Sweep.{
  SweepAction, leave, convert, fill_at, sweep_one, sweep_action, sweep_trades, sweep_asset,
  sweep_assets, process_open_orders, convert_triggered, resting_assets, resting, actionable,
}
use quantumsentinel_web.History.{Op, opens, places, cancels, sweeps, step, run}
use quantumsentinel_web.History.Keeps.{
  Keeps, Both, get_or_create_account-Both, try_reserve-Both, close_order-Both, accept_order-Both,
  fill_order-Both,
}

module _ {P : Tables → Type 0} (k : Keeps P) where
  convert_to_limit-Both : (id : ℕ) (s : Session) → Both P s → Both P (convert_to_limit id s)
  unfolding convert_to_limit
  convert_to_limit-Both id s h =
      let w = k.retype (trade_with_id id) s.working h.working in
      record { committed = w; working = w }

  rest_order-Both :
      (s : Session) (t : Trade) (last : Decimal) (stale : Bool)
      → Both P s
      → Both P (rest_order s t last stale)
  unfolding rest_order
  rest_order-Both s t last stale h =
      accept_order-Both k _ t (if_both (Both P) _ (λ _. convert_to_limit-Both t.id s h) (λ _. h))

  close_or_rest-Both :
      (tif : TimeInForce) (s : Session) (t : Trade) (reserve : ℕ) (last : Decimal) (stale : Bool)
      → Both P s
      → Both P (close_or_rest tif s t reserve last stale).0
  unfolding close_or_rest
  close_or_rest-Both ioc s t reserve last stale h =
      close_order-Both k s t expired (some reserve) (unfold is_open in refl) h
  close_or_rest-Both day s t reserve last stale h = rest_order-Both s t last stale h
  close_or_rest-Both gtc s t reserve last stale h = rest_order-Both s t last stale h

  execute_fill-Both :
      (o : Option Decimal) (s : Session) (t : Trade) (reserve : ℕ) (last : Decimal) (stale : Bool)
      (now : ℕ)
      → Both P s
      → Both P (execute_fill o s t reserve last stale now).0
  unfolding execute_fill
  execute_fill-Both (some price) s t reserve last stale now h =
      fill_order-Both k s t price (some reserve) now h
  execute_fill-Both none s t reserve last stale now h =
      close_or_rest-Both t.time_in_force s t reserve last stale h

  insert_order-Both :
      (enough insert_ok : Bool) (s : Session) (t : Trade) (reserve : ℕ) (last : Decimal)
      (stale : Bool) (now : ℕ)
      → Both P s
      → Both P (insert_order enough insert_ok s t reserve last stale now).0
  unfolding insert_order route_order
  insert_order-Both false insert_ok s t reserve last stale now h = record {
    committed = h.committed;
    working = h.committed;
  }
  insert_order-Both true false s t reserve last stale now h = record {
    committed = h.committed;
    working = h.committed;
  }
  insert_order-Both true true s t reserve last stale now h =
      execute_fill-Both _ (commit (add_trade t s)) t reserve last stale now
        (let w = k.insert t s.working h.working in record { committed = w; working = w })

  place_unused-Both :
      (o : Option Trade) (s : Session) (t : Trade) (last : Decimal) (stale insert_ok : Bool)
      (now : ℕ)
      → Both P s
      → Both P (place_unused o s t last stale insert_ok now).0
  unfolding place_unused
  place_unused-Both (some used) s t last stale insert_ok now h = h
  place_unused-Both none s t last stale insert_ok now h =
      insert_order-Both _ insert_ok _ t _ last stale now (try_reserve-Both k s t.user_id _ h)

  place_order-Both :
      (s : Session) (t : Trade) (last : Decimal) (stale insert_ok : Bool) (now : ℕ)
      → Both P s
      → Both P (place_order s t last stale insert_ok now).0
  unfolding place_order
  place_order-Both s t last stale insert_ok now h =
      place_unused-Both _ s t last stale insert_ok now h

  cancel_row-Both :
      (s : Session) (user : ℕ) (o : Option Trade) → Both P s → Both P (cancel_row s user o).0
  unfolding cancel_row
  cancel_row-Both s user none h = h
  cancel_row-Both s user (some t) h =
      ground (arith, close_order-Both k s t cancelled none (unfold is_open in refl) h)

  cancel_order-Both : (s : Session) (user id : ℕ) → Both P s → Both P (cancel_order s user id).0
  unfolding cancel_order
  cancel_order-Both s user id h =
      cancel_row-Both s user (first_where (trade_with_id id) s.working.trades) h

  sweep_one-Both :
      (s : Session) (t : Trade) (a : SweepAction) (now : ℕ)
      → Both P s
      → Both P (sweep_one s t a now).0
  unfolding sweep_one convert_triggered
  sweep_one-Both s t leave now h = h
  sweep_one-Both s t convert now h =
      let w =
        k.retype (λ (row : Trade). row.id == t.id && is_accepted row.status) s.working h.working in
      record { committed = w; working = w }
  sweep_one-Both s t (fill_at price) now h = fill_order-Both k s t price none now h

  sweep_trades-Both :
      (s : Session) (ts : List Trade) (last : Decimal) (now : ℕ)
      → Both P s
      → Both P (sweep_trades s ts last now).0
  unfolding sweep_trades
  sweep_trades-Both s [] last now h = h
  sweep_trades-Both s (t ∷ ts) last now h =
      sweep_trades-Both (sweep_one s t (sweep_action last t) now).0 ts last now
        (sweep_one-Both s t (sweep_action last t) now h)

  sweep_asset-Both :
      (s : Session) (asset : ℕ) (last : Option Decimal) (now : ℕ)
      → Both P s
      → Both P (sweep_asset s asset last now).0
  unfolding sweep_asset
  sweep_asset-Both s asset none now h = h
  sweep_asset-Both s asset (some last) now h =
      sweep_trades-Both s
        (order_by (λ (t : Trade). t.submitted_at)
          (select_where (λ (t : Trade). resting asset t && actionable last t) s.working.trades))
        last now h

  sweep_assets-Both :
      (p : ℕ → Option Decimal) (s : Session) (assets : List ℕ) (now : ℕ)
      → Both P s
      → Both P (sweep_assets p s assets now).0
  unfolding sweep_assets
  sweep_assets-Both p s [] now h = h
  sweep_assets-Both p s (a ∷ assets) now h =
      sweep_assets-Both p (sweep_asset s a (p a) now).0 assets now
        (sweep_asset-Both s a (p a) now h)

  process_open_orders-Both :
      (p : ℕ → Option Decimal) (s : Session) (now : ℕ)
      → Both P s
      → Both P (process_open_orders p s now).0
  unfolding process_open_orders
  process_open_orders-Both p s now h = sweep_assets-Both p s (resting_assets s.working.trades) now h

  step-Both : (s : Session) (op : Op) → Both P s → Both P (step s op)
  unfolding step
  step-Both s (opens user) h = get_or_create_account-Both k s user h
  step-Both s (places t last stale insert_ok now) h =
      place_order-Both s t last stale insert_ok now h
  step-Both s (cancels user id) h = cancel_order-Both s user id h
  step-Both s (sweeps last_price now) h = process_open_orders-Both last_price s now h

  pub run-Both : (s : Session) (ops : List Op) → Both P s → Both P (run s ops)
  unfolding run
  run-Both s [] h = h
  run-Both s (op ∷ ops) h = run-Both (step s op) ops (step-Both s op h)
