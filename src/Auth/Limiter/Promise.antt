-- ===== src/Auth/Limiter/Promise.antt =====
-- What the limiter promises: an account, for each email and address, that has all the failures since
-- it was last cleared or locked, and no dictionary, no order and no expiry.
pub mod Matches
pub mod Refines
use quantumsentinel_web.Prelude.{
  ℕ, ◌+◌, ◌-◌, ◌/◌, ◌≤◌, ◌≡◌, refl, sym, ap, ◌∙◌, arith, Bool, true, false, Option, none, some,
  List, [], ◌∷◌, ◌++◌, All, Bool-cases, Option-cases, inl, inr, ltb, length, leb, if◌then◌else◌,
}
use quantumsentinel_web.Prelude.Dict.{
  Item, get, pop, put, put_last, put_or_pop, pop_front, get-pop_self, get-pop_other, get-put_self,
  get-put_other, get-put_last_self, get-put_last_other,
}
use quantumsentinel_web.Prelude.Dict.Order.{get-pop_front, All-get}
use quantumsentinel_web.Security.{same_text}
use quantumsentinel_web.Auth.Limiter.{
  Limiter, Attempts, Locks, text_key, latest, is_recent, is_none, recent, or_empty, unless_none,
  recent_failures, expire_lockout_state, failures_stale, lock_stale, lockout, max_attempts, checked,
  counted, check_rate_limit, record_failed_attempt, clear_failed_attempts, Call, check, fail, clear,
  call, call_time, answers, InTime, rate_key, or_zero, Answer, limit, recorded, cleared,
  lockout_seconds, second, same_text_eq,
}
use quantumsentinel_web.Auth.Limiter.Times.{Timed, recent_again, recent-append, stale_none}
use quantumsentinel_web.Auth.Limiter.Kept.{
  IsKept, FailuresKept, LocksKept, later-IsKept, expire-IsKept, call-IsKept, no_failures,
}

pub record Account : Type 0 where
  pub failures : List ℕ
  pub locked_until : ℕ

abbrev pub Accounts : Type 0
Accounts = List ℕ → Account

unfoldable pub at_key : List ℕ → Account → Accounts → Accounts
unfolding same_text
at_key key a accounts j = if same_text j key then a else accounts j

abbrev pub account_check : ℕ → Account → Answer
account_check now a =
    if ltb now a.locked_until then limit true ((a.locked_until - now) / second) else limit false 0

abbrev pub account_fail : ℕ → Account → Account × Answer
account_fail now a =
    if leb max_attempts (length (recent now a.failures ++ now ∷ []))
    then (record { failures = []; locked_until = now + lockout }, recorded (some lockout_seconds))
    else (record a { failures = a.failures ++ now ∷ [] }, recorded none)

module _ (lower : List ℕ → List ℕ) where
  unfoldable pub promised : Call → Accounts → Accounts × Answer
  unfolding at_key
  promised (check email ip now) accounts =
      (accounts, account_check now (accounts (rate_key lower email ip)))
  promised (fail email ip now) accounts =
      let key = rate_key lower email ip in
      let r = account_fail now (accounts key) in (at_key key r.0 accounts, r.1)
  promised (clear email ip now) accounts = (
    at_key (rate_key lower email ip) record { failures = []; locked_until = 0 } accounts,
    cleared,
  )

  unfoldable pub promised_answers : List Call → Accounts → List Answer
  unfolding promised
  promised_answers [] accounts = []
  promised_answers (c ∷ cs) accounts =
      (promised c accounts).1 ∷ promised_answers cs (promised c accounts).0

abbrev pub no_accounts : Accounts
no_accounts key = record { failures = []; locked_until = 0 }
