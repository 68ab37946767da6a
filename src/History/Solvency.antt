-- ===== src/History/Solvency.antt =====
-- Cash and reservations of the accounts over histories of backend/services/paper_broker.py.
use quantumsentinel_web.Prelude.{
  ℕ, ◌+◌, ◌≤◌, ◌≡◌, true, List, [], ◌∷◌, arith, All, All-append, All-update_where,
}
use quantumsentinel_web.Money.{Side, buy, sell}
use quantumsentinel_web.Ledger.{
  PaperAccount, Tables, Session, Trade, opened_account, can_reserve, released, release, account_of,
}
use quantumsentinel_web.Positions.{rebuild_positions}
use quantumsentinel_web.Broker.{can_pay, pay, settle, cas_status}
use quantumsentinel_web.History.{Op, run}
use quantumsentinel_web.History.Keeps.{Keeps, Both, Settles}
use quantumsentinel_web.History.Run.{run-Both}

abbrev pub IsSolvent : PaperAccount → Type 0
IsSolvent a = a.reserved_micros ≤ a.cash_micros

abbrev pub AllSolvent : Tables → Type 0
AllSolvent w = All IsSolvent w.accounts

opened_account-IsSolvent : (user : ℕ) (ts : List Trade) → IsSolvent (opened_account user ts)
unfolding opened_account
opened_account-IsSolvent user ts = omega arith

reserve-AllSolvent :
    (user amount : ℕ) (a : PaperAccount)
    → can_reserve user amount a ≡ true
    → a.reserved_micros + amount ≤ a.cash_micros
unfolding can_reserve
reserve-AllSolvent user amount a p = ground arith

pay-IsSolvent :
    (user cost reserved : ℕ) (a : PaperAccount)
    → can_pay user cost reserved a ≡ true
    → IsSolvent (pay cost reserved a)
unfolding can_pay pay
pay-IsSolvent user cost reserved a p = ground arith

released-le : (amount reserved : ℕ) → released amount reserved ≤ reserved
unfolding released
released-le amount reserved = ground arith

settle-AllSolvent :
    (side : Side) (t : Trade) (cost reserved : ℕ) (w : Tables)
    → AllSolvent w
    → Settles AllSolvent (settle side t cost reserved w)
unfolding settle
settle-AllSolvent buy t cost reserved w h = ground (
  arith,
  All-update_where IsSolvent (can_pay t.user_id cost reserved) (pay cost reserved)
      (λ (a : PaperAccount) p k. pay-IsSolvent t.user_id cost reserved a p) w.accounts h,
)
settle-AllSolvent sell t cost reserved w h = ground (
  arith,
  All-update_where IsSolvent (account_of t.user_id)
      (λ (a : PaperAccount). record a { cash_micros = a.cash_micros + cost })
      (λ (a : PaperAccount) p k. omega arith) w.accounts h,
)

solvency : Keeps AllSolvent
unfolding cas_status rebuild_positions release
solvency = record {
  open_account = λ user w h.
      All-append IsSolvent w.accounts (opened_account user w.trades ∷ []) h
        (opened_account-IsSolvent user w.trades, tt);
  reserve = λ user amount w h.
      All-update_where IsSolvent (can_reserve user amount) _
        (λ a p k. reserve-AllSolvent user amount a p) w.accounts h;
  give_back = λ user amount w h.
      All-update_where IsSolvent (account_of user) _
        (λ a p k. omega (arith, released-le amount a.reserved_micros)) w.accounts h;
  close = λ id to_status w o h. h;
  accept = λ id w h. h;
  fill = λ id price now w h. h;
  pays = settle-AllSolvent;
  rebuild = λ user w h. h;
  retype = λ p w h. h;
  insert = λ t w h. h;
}

-- From a session whose accounts reserve no more than their cash, every history of opening accounts,
-- placing and cancelling orders and sweeping leaves no account that reserves more than its cash, in
-- what is committed and in what the session sees.
pub run-AllSolvent : (s : Session) (ops : List Op) → Both AllSolvent s → Both AllSolvent (run s ops)
run-AllSolvent s ops h = run-Both solvency s ops h
