-- ===== src/Auth/Limiter.antt =====
-- The brute-force limiter (_FAIL_ATTEMPTS, _LOCKED_UNTIL and the functions on them). A time is a
-- number of microseconds; `now` is time.time() of the call, and each call holds _RATE_LOCK.
pub mod Times
pub mod Kept
pub mod Promise
use quantumsentinel_web.Prelude.{
  ℕ, ◌+◌, ◌-◌, ◌*◌, ◌/◌, ◌≤◌, ◌≡◌, refl, arith, Bool, true, false, not, ◌&&◌, ◌||◌, ltb, leb, ◌==◌,
  if◌then◌else◌, Option, none, some, List, [], ◌∷◌, ◌++◌, select_where, length,
}
use quantumsentinel_web.Prelude.Dict.{Item, KeyTest, get, pop, put_last, put_or_pop, pop_front, put}
use quantumsentinel_web.Security.{same_text}
use quantumsentinel_web.Security.Replay.{same_text_refl}

abbrev pub second : ℕ
second = 1000000

-- _FAIL_WINDOW_SECONDS, _LOCKOUT_SECONDS and _MAX_ATTEMPTS.
abbrev pub fail_window : ℕ
fail_window = 900000000

abbrev pub lockout_seconds : ℕ
lockout_seconds = 900

abbrev pub lockout : ℕ
lockout = 900000000

abbrev pub max_attempts : ℕ
max_attempts = 5

pub same_text_eq : (s t : List ℕ) → same_text s t ≡ true → s ≡ t
unfolding same_text
same_text_eq [] [] h = refl
same_text_eq [] (d ∷ t) h = ground arith
same_text_eq (c ∷ s) [] h = ground arith
same_text_eq (c ∷ s) (d ∷ t) h = ground (arith, same_text_eq s t)

abbrev pub text_key : KeyTest (List ℕ)
text_key = record { test = same_text; test_refl = same_text_refl; test_eq = same_text_eq }

abbrev pub Attempts : Type 0
Attempts = List (Item (List ℕ) (List ℕ))

abbrev pub Locks : Type 0
Locks = List (Item (List ℕ) ℕ)

pub record Limiter : Type 0 where
  pub failed : Attempts
  pub locked : Locks

-- "unknown"
abbrev unknown : List ℕ
unknown = 117 ∷ 110 ∷ 107 ∷ 110 ∷ 111 ∷ 119 ∷ 110 ∷ []

abbrev ip_or_unknown : Option (List ℕ) → List ℕ
ip_or_unknown none = unknown
ip_or_unknown (some []) = unknown
ip_or_unknown (some (c ∷ s)) = c ∷ s

-- `lower` is str.lower.
unfoldable pub rate_key : (List ℕ → List ℕ) → List ℕ → Option (List ℕ) → List ℕ
rate_key lower email ip = lower email ++ 58 ∷ ip_or_unknown ip

-- times[-1], where there is one.
unfoldable pub latest : List ℕ → ℕ
latest [] = 0
latest (t ∷ []) = t
latest (t ∷ u ∷ ts) = latest (u ∷ ts)

abbrev pub is_recent : ℕ → ℕ → Bool
is_recent now t = ltb (now - t) fail_window

abbrev pub is_none : List ℕ → Bool
is_none [] = true
is_none (t ∷ ts) = false

abbrev pub failures_stale : ℕ → List ℕ → Bool
failures_stale now times = not (not (is_none times) && is_recent now (latest times))

abbrev pub lock_stale : ℕ → ℕ → Bool
lock_stale now until = not (ltb now until)

unfoldable pub expire_lockout_state : ℕ → Limiter → Limiter
unfolding pop_front latest
expire_lockout_state now l = record {
  failed = pop_front (failures_stale now) l.failed;
  locked = pop_front (lock_stale now) l.locked;
}

abbrev pub or_empty : Option (List ℕ) → List ℕ
or_empty none = []
or_empty (some times) = times

abbrev pub or_zero : Option ℕ → ℕ
or_zero none = 0
or_zero (some until) = until

unfoldable pub recent : ℕ → List ℕ → List ℕ
unfolding select_where
recent now times = select_where (is_recent now) times

abbrev pub unless_none : List ℕ → Option (List ℕ)
unless_none [] = none
unless_none (t ∷ ts) = some (t ∷ ts)

-- The recent failures under a key, and the dictionary with them written back.
unfoldable pub recent_failures : List ℕ → ℕ → Attempts → Attempts × List ℕ
unfolding get put_or_pop recent
recent_failures key now failed =
    let times = recent now (or_empty (get text_key key failed)) in
    (put_or_pop text_key key (unless_none times) failed, times)

-- What a request sees of the limiter.
pub data Answer : Type 0 where
  limit : Bool → ℕ → Answer
  recorded : Option ℕ → Answer
  cleared : Answer

abbrev checked : List ℕ → ℕ → Limiter → ℕ → Limiter × Answer
checked key now l locked_until =
    let failed = (recent_failures key now l.failed).0 in
    if ltb now locked_until
    then (l, limit true ((locked_until - now) / second))
    else (record l { failed = failed }, limit false 0)

unfoldable pub check_rate_limit : List ℕ → ℕ → Limiter → Limiter × Answer
unfolding expire_lockout_state recent_failures get
check_rate_limit key now l =
    let live = expire_lockout_state now l in
    checked key now live (or_zero (get text_key key live.locked))

-- The failure is written to the end, and where it is the fifth the key is locked and forgotten.
abbrev counted : List ℕ → ℕ → Limiter → Attempts × List ℕ → Limiter × Answer
counted key now l (failed, times) =
    let written = put_last text_key key (times ++ now ∷ []) failed in
    if leb max_attempts (length (times ++ now ∷ []))
    then (
      record {
        failed = pop text_key key written;
        locked = put_last text_key key (now + lockout) l.locked;
      },
      recorded (some lockout_seconds),
    )
    else (record l { failed = written }, recorded none)

unfoldable pub record_failed_attempt : List ℕ → ℕ → Limiter → Limiter × Answer
unfolding expire_lockout_state recent_failures put_last pop
record_failed_attempt key now l =
    let live = expire_lockout_state now l in
    counted key now live (recent_failures key now live.failed)

unfoldable pub clear_failed_attempts : List ℕ → Limiter → Limiter × Answer
unfolding pop
clear_failed_attempts key l =
    (record { failed = pop text_key key l.failed; locked = pop text_key key l.locked }, cleared)

-- A call, with the account's email, the client's address and the time.
pub data Call : Type 0 where
  check : List ℕ → Option (List ℕ) → ℕ → Call
  fail : List ℕ → Option (List ℕ) → ℕ → Call
  clear : List ℕ → Option (List ℕ) → ℕ → Call

abbrev pub call_time : Call → ℕ
call_time (check email ip now) = now
call_time (fail email ip now) = now
call_time (clear email ip now) = now

module _ (lower : List ℕ → List ℕ) where
  unfoldable pub call : Call → Limiter → Limiter × Answer
  unfolding check_rate_limit record_failed_attempt clear_failed_attempts rate_key
  call (check email ip now) l = check_rate_limit (rate_key lower email ip) now l
  call (fail email ip now) l = record_failed_attempt (rate_key lower email ip) now l
  call (clear email ip now) l = clear_failed_attempts (rate_key lower email ip) l

  -- The limiter after calls, and what they answered.
  unfoldable pub after : List Call → Limiter → Limiter
  unfolding call
  after [] l = l
  after (c ∷ cs) l = after cs (call c l).0

  unfoldable pub answers : List Call → Limiter → List Answer
  unfolding call
  answers [] l = []
  answers (c ∷ cs) l = (call c l).1 ∷ answers cs (call c l).0

-- The clock of the calls does not run backwards.
unfoldable pub InTime : ℕ → List Call → Type 0
InTime now [] = Unit
InTime now (c ∷ cs) = (now ≤ call_time c) × InTime (call_time c) cs
