-- ===== src/Auth/Limiter/Promise/Matches.antt =====
-- The dictionaries of the limiter beside the accounts that they stand for.
use quantumsentinel_web.Prelude.{
  ℕ, ◌≤◌, ◌≡◌, refl, sym, ap, ◌∙◌, arith, false, List, [], ◌∷◌, ◌++◌, Bool-cases, inl, inr, ltb,
  if◌then◌else◌,
}
use quantumsentinel_web.Prelude.Dict.{
  get, pop, put_last, put_or_pop, pop_front, get-pop_self, get-pop_other, get-put_self,
  get-put_other, get-put_last_self, get-put_last_other,
}
use quantumsentinel_web.Prelude.Dict.Order.{get-pop_front, All-get}
use quantumsentinel_web.Security.{same_text}
use quantumsentinel_web.Auth.Limiter.{
  Limiter, Attempts, Locks, text_key, recent, or_empty, unless_none, recent_failures,
  expire_lockout_state, failures_stale, lock_stale, or_zero, same_text_eq,
}
use quantumsentinel_web.Auth.Limiter.Times.{Timed, recent_again, recent-append, stale_none}
use quantumsentinel_web.Auth.Limiter.Kept.{IsKept, FailuresKept, LocksKept}
use quantumsentinel_web.Auth.Limiter.Promise.{Account, Accounts, at_key}

-- A lock that has passed is none.
abbrev pub active : ℕ → ℕ → ℕ
active now until = if ltb now until then until else 0

abbrev pub times_of : List ℕ → Attempts → List ℕ
times_of key xs = or_empty (get text_key key xs)

abbrev pub until_of : List ℕ → Locks → ℕ
until_of key xs = or_zero (get text_key key xs)

-- The dictionaries hold for each key what still matters of its account.
abbrev pub MatchesFailed : ℕ → Attempts → Accounts → Type 0
MatchesFailed now xs accounts =
    (key : List ℕ) → recent now (times_of key xs) ≡ recent now (accounts key).failures

abbrev pub MatchesLocked : ℕ → Locks → Accounts → Type 0
MatchesLocked now xs accounts =
    (key : List ℕ) → active now (until_of key xs) ≡ active now (accounts key).locked_until

abbrev pub Matches : ℕ → Limiter → Accounts → Type 0
Matches now l accounts = MatchesFailed now l.failed accounts × MatchesLocked now l.locked accounts

pub later-Matches :
    (last now : ℕ) (l : Limiter) (accounts : Accounts)
    → last ≤ now
    → Matches last l accounts
    → Matches now l accounts
later-Matches last now l accounts h m = (
  (λ key.
      sym (recent_again last now (times_of key l.failed) h)
      ∙ ap (recent now) (m.0 key)
      ∙ recent_again last now (accounts key).failures h),
  (λ key. ground (arith, m.1 key)),
)

expire-failed :
    (now : ℕ) (key : List ℕ) (xs : Attempts)
    → FailuresKept now xs
    → recent now (times_of key (pop_front (failures_stale now) xs)) ≡ recent now (times_of key xs)
unfolding recent
expire-failed now key xs k = elim (get-pop_front text_key (failures_stale now) key xs k.0) [
  | inl e ↦ rw e refl
  | inr (times, found, stale, gone) ↦
      let timed = All-get text_key (λ x. Timed now x.value) key times xs k.2 found in
      rw (found, gone) (sym (stale_none now times timed.1 (ground (arith, stale, timed.0))))
]

expire-locked :
    (now : ℕ) (key : List ℕ) (xs : Locks)
    → LocksKept now xs
    → active now (until_of key (pop_front (lock_stale now) xs)) ≡ active now (until_of key xs)
expire-locked now key xs k = elim (get-pop_front text_key (lock_stale now) key xs k.0) [
  | inl e ↦ rw e refl
  | inr (until, found, stale, gone) ↦ ground (arith, stale, found, gone)
]

pub expire-Matches :
    (now : ℕ) (l : Limiter) (accounts : Accounts)
    → IsKept now l
    → Matches now l accounts
    → Matches now (expire_lockout_state now l) accounts
unfolding expire_lockout_state
expire-Matches now l accounts k m = (
  (λ key. expire-failed now key l.failed k.0 ∙ m.0 key),
  (λ key. expire-locked now key l.locked k.1 ∙ m.1 key),
)

times-write_back :
    (key times : List ℕ) (xs : Attempts)
    → times_of key (put_or_pop text_key key (unless_none times) xs) ≡ times
unfolding put_or_pop
times-write_back key [] xs = rw (get-pop_self text_key key xs) refl
times-write_back key (t ∷ ts) xs = rw (get-put_self text_key key (t ∷ ts) xs) refl

write_back-other :
    (j key times : List ℕ) (xs : Attempts)
    → same_text j key ≡ false
    → times_of j (put_or_pop text_key key (unless_none times) xs) ≡ times_of j xs
unfolding put_or_pop
write_back-other j key [] xs h = rw (get-pop_other text_key j key xs h) refl
write_back-other j key (t ∷ ts) xs h = rw (get-put_other text_key j key (t ∷ ts) xs h) refl

-- Writing the recent failures back keeps the recent failures of every key.
pub recent_failures-same :
    (now : ℕ) (j key : List ℕ) (xs : Attempts)
    → recent now (times_of j (recent_failures key now xs).0) ≡ recent now (times_of j xs)
unfolding recent_failures
recent_failures-same now j key xs = elim (Bool-cases (same_text j key)) [
  | inl e ↦
      rw (same_text_eq j key e, times-write_back key (recent now (times_of key xs)) xs)
        (recent_again now now (times_of key xs) (omega arith))
  | inr e ↦ rw (write_back-other j key (recent now (times_of key xs)) xs e) refl
]

same_recent-append :
    (now : ℕ) (xs ys : List ℕ)
    → recent now xs ≡ recent now ys
    → recent now (recent now xs ++ now ∷ []) ≡ recent now (ys ++ now ∷ [])
same_recent-append now xs ys e =
    rw
      (
        recent-append now (recent now xs) (now ∷ []),
        recent-append now ys (now ∷ []),
        recent_again now now xs (omega arith),
        e,
      )
      refl

-- A failure is written at the end of what the key had.
pub written-matches :
    (now : ℕ) (key : List ℕ) (xs : Attempts) (accounts : Accounts) (a : Account)
    → MatchesFailed now xs accounts
    → a.failures ≡ (accounts key).failures ++ now ∷ []
    → MatchesFailed now
        (put_last text_key key
          (recent now (times_of key xs) ++ now ∷ [])
          (recent_failures key now xs).0)
        (at_key key a accounts)
unfolding at_key
written-matches now key xs accounts a m n j = elim (Bool-cases (same_text j key)) [
  | inl e ↦
      rw
        (
          e,
          same_text_eq j key e,
          get-put_last_self text_key key (recent now (times_of key xs) ++ now ∷ [])
              (recent_failures key now xs).0,
          n,
        )
        (same_recent-append now (times_of key xs) (accounts key).failures (m key))
  | inr e ↦
      rw
        (
          e,
          get-put_last_other text_key j key (recent now (times_of key xs) ++ now ∷ [])
              (recent_failures key now xs).0 e,
        )
        (recent_failures-same now j key xs ∙ m j)
]

pub popped-matches :
    (now : ℕ) (key : List ℕ) (xs : Attempts) (accounts : Accounts) (a : Account)
    → ((j : List ℕ)
        → same_text j key ≡ false
        → recent now (times_of j xs) ≡ recent now (accounts j).failures)
    → a.failures ≡ []
    → MatchesFailed now (pop text_key key xs) (at_key key a accounts)
unfolding at_key
popped-matches now key xs accounts a m n j = elim (Bool-cases (same_text j key)) [
  | inl e ↦ rw (e, same_text_eq j key e, get-pop_self text_key key xs, n) refl
  | inr e ↦ rw (e, get-pop_other text_key j key xs e) (m j e)
]

pub locked-matches :
    (now until : ℕ) (key : List ℕ) (xs : Locks) (accounts : Accounts) (a : Account)
    → MatchesLocked now xs accounts
    → a.locked_until ≡ until
    → MatchesLocked now (put_last text_key key until xs) (at_key key a accounts)
unfolding at_key
locked-matches now until key xs accounts a m n j = elim (Bool-cases (same_text j key)) [
  | inl e ↦ rw (e, same_text_eq j key e, get-put_last_self text_key key until xs, n) refl
  | inr e ↦ rw (e, get-put_last_other text_key j key until xs e) (m j)
]

pub unlocked-matches :
    (now : ℕ) (key : List ℕ) (xs : Locks) (accounts : Accounts) (a : Account)
    → MatchesLocked now xs accounts
    → a.locked_until ≡ 0
    → MatchesLocked now (pop text_key key xs) (at_key key a accounts)
unfolding at_key
unlocked-matches now key xs accounts a m n j = elim (Bool-cases (same_text j key)) [
  | inl e ↦ rw (e, same_text_eq j key e, get-pop_self text_key key xs, n) refl
  | inr e ↦ rw (e, get-pop_other text_key j key xs e) (m j)
]

pub same_lock-matches :
    (now : ℕ) (key : List ℕ) (xs : Locks) (accounts : Accounts) (a : Account)
    → MatchesLocked now xs accounts
    → a.locked_until ≡ (accounts key).locked_until
    → MatchesLocked now xs (at_key key a accounts)
unfolding at_key
same_lock-matches now key xs accounts a m n j = elim (Bool-cases (same_text j key)) [
  | inl e ↦ rw (e, n, sym (same_text_eq j key e)) (m j)
  | inr e ↦ rw e (m j)
]
