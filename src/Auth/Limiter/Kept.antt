-- ===== src/Auth/Limiter/Kept.antt =====
-- The order in which the limiter keeps failures and locks, and what expiry leaves of them.
use quantumsentinel_web.Prelude.{
  ℕ, ◌+◌, ◌≤◌, ◌≡◌, refl, sym, subst, arith, true, false, some, List, [], ◌∷◌, ◌++◌, All, not,
  select_where, Option-cases, inl, inr, if_both, ltb, length, leb,
}
use quantumsentinel_web.Prelude.Sorted.{Ascends}
use quantumsentinel_web.Prelude.Dict.{Item, get, pop, put_last, put_or_pop}
use quantumsentinel_web.Prelude.Dict.Order.{
  Distinct, pop-Distinct, put-Distinct, put_last-Distinct, pop_front-Distinct, All-pop, All-put,
  All-put_last, All-pop_front, All-get, pop-Ascends, put-Ascends, put_last-Ascends,
  pop_front-Ascends, pop_front-eq-select,
}
use quantumsentinel_web.Auth.Limiter.{
  Limiter, Attempts, Locks, text_key, latest, is_none, recent, or_empty, unless_none,
  recent_failures, expire_lockout_state, failures_stale, lock_stale, lockout, max_attempts,
  check_rate_limit, record_failed_attempt, clear_failed_attempts, Call, check, fail, clear, call,
  call_time, after, InTime, rate_key, or_zero,
}
use quantumsentinel_web.Auth.Limiter.Times.{
  Timed, latest-recent, latest-append, recent-Timed, append-Timed, All-later,
}

-- The last of the calls is not after `now`.
unfoldable pub Until : ℕ → ℕ → List Call → Type 0
Until last now [] = last ≤ now
Until last now (c ∷ cs) = Until (call_time c) now cs

abbrev pub by_latest : Item (List ℕ) (List ℕ) → ℕ
by_latest x = latest x.value

abbrev pub by_expiry : Item (List ℕ) ℕ → ℕ
by_expiry x = x.value

-- The failures by their latest attempt, which is not after `now`.
abbrev pub FailuresKept : ℕ → Attempts → Type 0
FailuresKept now xs = Distinct text_key xs × Ascends by_latest xs × All (λ x. Timed now x.value) xs

-- The locks by their expiry, which is at most a lockout after `now`.
abbrev pub LocksKept : ℕ → Locks → Type 0
LocksKept now xs =
    Distinct text_key xs × Ascends by_expiry xs × All (λ x. x.value ≤ now + lockout) xs

abbrev pub IsKept : ℕ → Limiter → Type 0
IsKept now l = FailuresKept now l.failed × LocksKept now l.locked

Timed-later :
    (last now : ℕ) (xs : Attempts)
    → last ≤ now
    → All (λ x. Timed last x.value) xs
    → All (λ x. Timed now x.value) xs
Timed-later last now [] h a = tt
Timed-later last now (x ∷ xs) h a =
    ((a.0.0, a.0.1, All-later last now x.value h a.0.2), Timed-later last now xs h a.1)

bound_later :
    (last now : ℕ) (xs : Locks)
    → last ≤ now
    → All (λ x. x.value ≤ last + lockout) xs
    → All (λ x. x.value ≤ now + lockout) xs
bound_later last now [] h a = tt
bound_later last now (x ∷ xs) h a = (omega arith, bound_later last now xs h a.1)

pub later-IsKept : (last now : ℕ) (l : Limiter) → last ≤ now → IsKept last l → IsKept now l
later-IsKept last now l h k = (
  (k.0.0, k.0.1, Timed-later last now l.failed h k.0.2),
  (k.1.0, k.1.1, bound_later last now l.locked h k.1.2),
)

pub expire-IsKept :
    (last now : ℕ) (l : Limiter) → IsKept last l → IsKept last (expire_lockout_state now l)
unfolding expire_lockout_state
expire-IsKept last now l k =
    let stale = failures_stale now in
    let over = lock_stale now in
    (
      (
        pop_front-Distinct text_key stale l.failed k.0.0,
        pop_front-Ascends text_key by_latest stale l.failed k.0.1,
        All-pop_front text_key _ stale l.failed k.0.2,
      ),
      (
        pop_front-Distinct text_key over l.locked k.1.0,
        pop_front-Ascends text_key by_expiry over l.locked k.1.1,
        All-pop_front text_key _ over l.locked k.1.2,
      ),
    )

pop-Kept :
    (last : ℕ) (key : List ℕ) (xs : Attempts)
    → FailuresKept last xs
    → FailuresKept last (pop text_key key xs)
pop-Kept last key xs k = (
  pop-Distinct text_key key xs k.0,
  pop-Ascends text_key by_latest key xs k.1,
  All-pop text_key _ key xs k.2,
)

write_back-Kept :
    (last now : ℕ) (key times : List ℕ) (xs : Attempts) (written : List ℕ)
    → get text_key key xs ≡ some times
    → recent now times ≡ written
    → FailuresKept last xs
    → FailuresKept last (put_or_pop text_key key (unless_none written) xs)
unfolding put_or_pop
write_back-Kept last now key times xs [] g e k = pop-Kept last key xs k
write_back-Kept last now key times xs (t ∷ ts) g e k =
    let timed = All-get text_key (λ x. Timed last x.value) key times xs k.2 g in
    let n : is_none (recent now times) ≡ false = rw e refl in
    (
      put-Distinct text_key key (t ∷ ts) xs k.0,
      put-Ascends text_key by_latest key (t ∷ ts) times xs g
          (rw (sym e) (latest-recent now times timed.1 timed.0 n)) k.1,
      All-put text_key (λ x. Timed last x.value) key (t ∷ ts) xs
          (subst (λ ws. Timed last ws) e (recent-Timed last now times timed n)) k.2,
    )

pub recent_failures-Kept :
    (last now : ℕ) (key : List ℕ) (xs : Attempts)
    → FailuresKept last xs
    → FailuresKept last (recent_failures key now xs).0
unfolding recent_failures recent put_or_pop
recent_failures-Kept last now key xs k = elim (Option-cases (get text_key key xs)) [
  | inl e ↦ rw e (pop-Kept last key xs k)
  | inr (times, e) ↦ rw e (write_back-Kept last now key times xs (recent now times) e refl k)
]

latest_before : (now : ℕ) (xs : List ℕ) → All (λ t. t ≤ now) xs → latest xs ≤ now
unfolding latest
latest_before now [] a = omega arith
latest_before now (t ∷ []) a = a.0
latest_before now (t ∷ u ∷ ts) a = latest_before now (u ∷ ts) a.1

ranks_before :
    (now : ℕ) (key times : List ℕ) (xs : Attempts)
    → All (λ x. Timed now x.value) xs
    → All (λ x. by_latest x ≤ latest (times ++ now ∷ [])) xs
ranks_before now key times [] a = tt
ranks_before now key times (x ∷ xs) a = (
  rw (latest-append now times) (latest_before now x.value a.0.2),
  ranks_before now key times xs a.1,
)

all_times :
    (now : ℕ) (key : List ℕ) (xs : Attempts)
    → FailuresKept now xs
    → Ascends (λ t. t) (or_empty (get text_key key xs))
      × All (λ t. t ≤ now) (or_empty (get text_key key xs))
all_times now key xs k = elim (Option-cases (get text_key key xs)) [
  | inl e ↦ rw e (tt, tt)
  | inr (times, e) ↦
      let timed = All-get text_key (λ x. Timed now x.value) key times xs k.2 e in
      rw e (timed.1, timed.2)
]

written-Kept :
    (now : ℕ) (key : List ℕ) (xs : Attempts)
    → FailuresKept now xs
    → FailuresKept now (
        put_last text_key key
          ((recent_failures key now xs).1 ++ now ∷ [])
          (recent_failures key now xs).0)
unfolding recent_failures
written-Kept now key xs k =
    let kept = recent_failures-Kept now now key xs k in
    let (ascending, before) = all_times now key xs k in
    let times = or_empty (get text_key key xs) in
    (
      put_last-Distinct text_key key _ _ kept.0,
      put_last-Ascends text_key by_latest key _ _ (ranks_before now key (recent now times) _ kept.2)
          kept.1,
      All-put_last text_key (λ x. Timed now x.value) key _ _
          (append-Timed now times ascending before) kept.2,
    )

locked-Kept :
    (now : ℕ) (key : List ℕ) (xs : Locks)
    → LocksKept now xs
    → LocksKept now (put_last text_key key (now + lockout) xs)
locked-Kept now key xs k = (
  put_last-Distinct text_key key _ xs k.0,
  put_last-Ascends text_key by_expiry key _ xs k.2 k.1,
  All-put_last text_key (λ x. x.value ≤ now + lockout) key _ xs (omega arith) k.2,
)

check-IsKept :
    (now : ℕ) (key : List ℕ) (l : Limiter)
    → IsKept now l
    → IsKept now (check_rate_limit key now l).0
unfolding check_rate_limit
check-IsKept now key l k =
    let live = expire_lockout_state now l in
    let kept = expire-IsKept now now l k in
    let until = or_zero (get text_key key live.locked) in
    if_both (λ (r : Limiter × _). IsKept now r.0) (ltb now until) (λ e. kept)
      (λ e. (recent_failures-Kept now now key live.failed kept.0, kept.1))

record-IsKept :
    (now : ℕ) (key : List ℕ) (l : Limiter)
    → IsKept now l
    → IsKept now (record_failed_attempt key now l).0
unfolding record_failed_attempt
record-IsKept now key l k =
    let live = expire_lockout_state now l in
    let kept = expire-IsKept now now l k in
    let written = written-Kept now key live.failed kept.0 in
    let found = recent_failures key now live.failed in
    if_both (λ (r : Limiter × _). IsKept now r.0) (leb max_attempts (length (found.1 ++ now ∷ [])))
      (λ e. (pop-Kept now key _ written, locked-Kept now key live.locked kept.1))
      (λ e. (written, kept.1))

clear-IsKept :
    (now : ℕ) (key : List ℕ) (l : Limiter)
    → IsKept now l
    → IsKept now (clear_failed_attempts key l).0
unfolding clear_failed_attempts
clear-IsKept now key l k = (
  pop-Kept now key l.failed k.0,
  (
    pop-Distinct text_key key l.locked k.1.0,
    pop-Ascends text_key by_expiry key l.locked k.1.1,
    All-pop text_key _ key l.locked k.1.2,
  ),
)

module _ (lower : List ℕ → List ℕ) where
  pub call-IsKept :
      (last : ℕ) (c : Call) (l : Limiter)
      → last ≤ call_time c
      → IsKept last l
      → IsKept (call_time c) (call lower c l).0
  unfolding call
  call-IsKept last (check email ip now) l h k =
      check-IsKept now (rate_key lower email ip) l (later-IsKept last now l h k)
  call-IsKept last (fail email ip now) l h k =
      record-IsKept now (rate_key lower email ip) l (later-IsKept last now l h k)
  call-IsKept last (clear email ip now) l h k =
      clear-IsKept now (rate_key lower email ip) l (later-IsKept last now l h k)

  pub after-IsKept :
      (last now : ℕ) (cs : List Call) (l : Limiter)
      → InTime last cs
      → Until last now cs
      → IsKept last l
      → IsKept now (after lower cs l)
  unfolding after InTime Until
  after-IsKept last now [] l t u k = later-IsKept last now l u k
  after-IsKept last now (c ∷ cs) l t u k =
      after-IsKept (call_time c) now cs (call lower c l).0 t.1 u (call-IsKept last c l t.0 k)

stale_latest :
    (now : ℕ) (x y : Item (List ℕ) (List ℕ))
    → by_latest x ≤ by_latest y
    → is_none x.value ≡ false
    → is_none y.value ≡ false
    → failures_stale now y.value ≡ true
    → failures_stale now x.value ≡ true
stale_latest now x y h n m s = ground arith

expire-eq :
    (last now : ℕ) (l : Limiter)
    → IsKept last l
    → expire_lockout_state now l ≡ record {
      failed = select_where (λ x. not (failures_stale now x.value)) l.failed;
      locked = select_where (λ x. not (lock_stale now x.value)) l.locked;
    }
unfolding expire_lockout_state
expire-eq last now l k =
    rw
      (
        pop_front-eq-select by_latest (λ x. Timed last x.value) (failures_stale now)
            (λ x y h n m. stale_latest now x y h n.0 m.0) l.failed k.0.1 k.0.2,
        pop_front-eq-select by_expiry (λ x. x.value ≤ last + lockout) (lock_stale now)
            (λ x y h n m s. ground arith) l.locked k.1.1 k.1.2,
      )
      refl

abbrev pub no_failures : Limiter
no_failures = record { failed = []; locked = [] }

pub empty-IsKept : (now : ℕ) → IsKept now no_failures
unfolding Distinct
empty-IsKept now = ((tt, tt, tt), (tt, tt, tt))

-- After any calls whose clock does not run backwards, popping stale entries from the front of both
-- dictionaries removes exactly the stale ones, wherever they stand.
pub expire_exact :
    (lower : List ℕ → List ℕ) (cs : List Call) (now : ℕ)
    → InTime 0 cs
    → Until 0 now cs
    → expire_lockout_state now (after lower cs no_failures) ≡ record {
      failed =
          select_where (λ x. not (failures_stale now x.value)) (after lower cs no_failures).failed;
      locked = select_where (λ x. not (lock_stale now x.value)) (after lower cs no_failures).locked;
    }
expire_exact lower cs now t u =
    expire-eq now now _ (after-IsKept lower 0 now cs no_failures t u (empty-IsKept 0))
