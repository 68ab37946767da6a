-- ===== src/Auth/Limiter/Promise/Refines.antt =====
-- The limiter's calls beside what they promise.
use quantumsentinel_web.Prelude.{
  ℕ, ◌+◌, ◌-◌, ◌/◌, ◌≤◌, ◌≡◌, refl, sym, ap, ◌∙◌, arith, true, List, [], ◌∷◌, ◌++◌, Bool-cases, inl,
  inr, ltb, length, leb,
}
use quantumsentinel_web.Prelude.Dict.{get, put_last, get-put_last_other}
use quantumsentinel_web.Auth.Limiter.{
  Limiter, Attempts, text_key, recent, recent_failures, expire_lockout_state, lockout, max_attempts,
  check_rate_limit, record_failed_attempt, clear_failed_attempts, Call, check, fail, clear, call,
  call_time, answers, InTime, rate_key, Answer, limit, cleared, second,
}
use quantumsentinel_web.Auth.Limiter.Kept.{
  IsKept, later-IsKept, call-IsKept, no_failures, empty-IsKept,
}
use quantumsentinel_web.Auth.Limiter.Promise.{
  Account, Accounts, at_key, account_check, account_fail, promised, promised_answers, no_accounts,
}
use quantumsentinel_web.Auth.Limiter.Promise.Matches.{
  active, until_of, MatchesFailed, Matches, later-Matches, expire-Matches, written-matches,
  popped-matches, locked-matches, unlocked-matches, same_lock-matches, recent_failures-same,
}

-- One call of the limiter keeps the match and answers as promised.
abbrev Keeps : ℕ → Limiter × Answer → Accounts × Answer → Type 0
Keeps now r s = Matches now r.0 s.0 × (r.1 ≡ s.1)

same_check : (now u v : ℕ) → active now u ≡ active now v → ltb now u ≡ ltb now v
same_check now u v h = ground arith

same_until : (now u v : ℕ) → active now u ≡ active now v → ltb now u ≡ true → u ≡ v
same_until now u v h e = ground arith

check-Keeps :
    (now : ℕ) (key : List ℕ) (l : Limiter) (accounts : Accounts)
    → IsKept now l
    → Matches now l accounts
    → Keeps now (check_rate_limit key now l) (accounts, account_check now (accounts key))
unfolding check_rate_limit
check-Keeps now key l accounts k m =
    let live = expire_lockout_state now l in
    let matched = expire-Matches now l accounts k m in
    let until = until_of key live.locked in
    let same = matched.1 key in
    let v = (accounts key).locked_until in
    elim (Bool-cases (ltb now until)) [
      | inl e ↦
          rw (e, sym (same_check now until v same) ∙ e)
            (matched, ap (λ u. limit true ((u - now) / second)) (same_until now until v same e))
      | inr e ↦
          rw (e, sym (same_check now until v same) ∙ e)
            ((λ j. recent_failures-same now j key live.failed ∙ matched.0 j, matched.1), refl)
    ]

-- The count that decides is the same on both sides.
fail-count :
    (now : ℕ) (key : List ℕ) (xs : Attempts) (accounts : Accounts)
    → MatchesFailed now xs accounts
    → length ((recent_failures key now xs).1 ++ now ∷ [])
      ≡ length (recent now (accounts key).failures ++ now ∷ [])
unfolding recent_failures
fail-count now key xs accounts m = ap (λ ts. length (ts ++ now ∷ [])) (m key)

fail-Keeps :
    (now : ℕ) (key : List ℕ) (l : Limiter) (accounts : Accounts)
    → IsKept now l
    → Matches now l accounts
    → Keeps now (record_failed_attempt key now l) (
      at_key key (account_fail now (accounts key)).0 accounts,
      (account_fail now (accounts key)).1,
    )
unfolding record_failed_attempt recent_failures
fail-Keeps now key l accounts k m =
    let live = expire_lockout_state now l in
    let matched = expire-Matches now l accounts k m in
    let found = recent_failures key now live.failed in
    let same = fail-count now key live.failed accounts matched.0 in
    let old = (accounts key).failures in
    elim (Bool-cases (leb max_attempts (length (found.1 ++ now ∷ [])))) [
      | inl e ↦
          rw (e, ap (leb max_attempts) (sym same) ∙ e)
            (
              (
                popped-matches now key (put_last text_key key (found.1 ++ now ∷ []) found.0)
                    accounts record { failures = []; locked_until = now + lockout }
                    (λ j h.
                      rw (get-put_last_other text_key j key (found.1 ++ now ∷ []) found.0 h)
                        (recent_failures-same now j key live.failed ∙ matched.0 j))
                    refl,
                locked-matches now (now + lockout) key live.locked accounts
                    record { failures = []; locked_until = now + lockout } matched.1 refl,
              ),
              refl,
            )
      | inr e ↦
          rw (e, ap (leb max_attempts) (sym same) ∙ e)
            (
              (
                written-matches now key live.failed accounts
                    record (accounts key) { failures = old ++ now ∷ [] } matched.0 refl,
                same_lock-matches now key live.locked accounts
                    record (accounts key) { failures = old ++ now ∷ [] } matched.1 refl,
              ),
              refl,
            )
    ]

clear-Keeps :
    (now : ℕ) (key : List ℕ) (l : Limiter) (accounts : Accounts)
    → Matches now l accounts
    → Keeps now
        (clear_failed_attempts key l)
        (at_key key record { failures = []; locked_until = 0 } accounts, cleared)
unfolding clear_failed_attempts
clear-Keeps now key l accounts m =
    let a : Account = record { failures = []; locked_until = 0 } in
    (
      (
        popped-matches now key l.failed accounts a (λ j h. m.0 j) refl,
        unlocked-matches now key l.locked accounts a m.1 refl,
      ),
      refl,
    )

module _ (lower : List ℕ → List ℕ) where
  call-Keeps :
      (last : ℕ) (c : Call) (l : Limiter) (accounts : Accounts)
      → last ≤ call_time c
      → IsKept last l
      → Matches last l accounts
      → Keeps (call_time c) (call lower c l) (promised lower c accounts)
  unfolding call promised
  call-Keeps last (check email ip now) l accounts h k m =
      check-Keeps now (rate_key lower email ip) l accounts (later-IsKept last now l h k)
        (later-Matches last now l accounts h m)
  call-Keeps last (fail email ip now) l accounts h k m =
      fail-Keeps now (rate_key lower email ip) l accounts (later-IsKept last now l h k)
        (later-Matches last now l accounts h m)
  call-Keeps last (clear email ip now) l accounts h k m =
      clear-Keeps now (rate_key lower email ip) l accounts (later-Matches last now l accounts h m)

  answers-eq :
      (last : ℕ) (cs : List Call) (l : Limiter) (accounts : Accounts)
      → InTime last cs
      → IsKept last l
      → Matches last l accounts
      → answers lower cs l ≡ promised_answers lower cs accounts
  unfolding answers promised_answers InTime
  answers-eq last [] l accounts t k m = refl
  answers-eq last (c ∷ cs) l accounts t k m =
      let (matched, same) = call-Keeps last c l accounts t.0 k m in
      let rest =
        answers-eq (call_time c) cs (call lower c l).0 (promised lower c accounts).0 t.1
          (call-IsKept lower last c l t.0 k) matched in
      rw (same, rest) refl

-- Over any calls whose clock does not run backwards, the two dictionaries, from whose fronts stale
-- entries are popped, answer exactly as one account for each email and address that forgets nothing
-- but what a lock or a clear resets.
pub answers-eq-promised :
    (lower : List ℕ → List ℕ) (cs : List Call)
    → InTime 0 cs
    → answers lower cs no_failures ≡ promised_answers lower cs no_accounts
unfolding get
answers-eq-promised lower cs t =
    answers-eq lower 0 cs no_failures no_accounts t (empty-IsKept 0) empty-matches
  where
    empty-matches : Matches 0 no_failures no_accounts
    empty-matches = ((λ key. refl), λ key. refl)
