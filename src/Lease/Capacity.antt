-- ===== src/Lease/Capacity.antt =====
-- The number of active jobs of a user over histories of backend/services/research_jobs.py.
use quantumsentinel_web.Prelude.{
  ℕ, ◌+◌, ◌≤◌, ◌<◌, ◌≡◌, Bool, true, not, List, [], ◌∷◌, ◌++◌, arith, All, if◌then◌else◌,
  select_where, update_where, count_where,
}
use quantumsentinel_web.Jobs.{
  Job, is_active, is_queued, is_running, active_of, active_count, new_job,
}
use quantumsentinel_web.Lease.{retired, claim_values, returned, reap_values}
use quantumsentinel_web.Lease.Valid.{IsValid}
use quantumsentinel_web.Lease.Statements.{
  Statement, claims, flags, cancels, renews, succeeds, fails, marks, returns, reaps, Keeps,
}
use quantumsentinel_web.Lease.Histories.{run, QueueOp, run-keeps}

abbrev pub WithinCap : ℕ → List Job → Type 0
WithinCap cap jobs = (user : ℕ) → active_count user jobs ≤ cap

abbrev one : Bool → ℕ
one b = if b then 1 else 0

-- A statement makes no inactive row active and gives no row to another user.
stays :
    {limit : ℕ} {p : Job → Bool} {f : Job → Job}
    → Statement limit p f
    → (user : ℕ) (j : Job) → p j ≡ true
    → one (active_of user (f j)) ≤ one (active_of user j)
unfolding is_active is_queued is_running claim_values returned reap_values
stays (claims id worker now lease) user j h = ground arith
stays (flags id) user j h = ground arith
stays (cancels id now) user j h = ground arith
stays (renews id worker attempt until) user j h = ground arith
stays (succeeds id worker attempt now result) user j h = ground arith
stays (fails id worker attempt now code) user j h = ground arith
stays (marks id worker attempt now) user j h = ground arith
stays (returns id worker attempt) user j h = ground arith
stays (reaps now k e) user j h = ground arith

count-update :
    {limit : ℕ} {p : Job → Bool} {f : Job → Job}
    → Statement limit p f
    → (user : ℕ) (jobs : List Job)
    → count_where (active_of user) (update_where p f jobs) ≤ count_where (active_of user) jobs
unfolding count_where update_where
count-update st user [] = omega arith
count-update {p} {f} st user (j ∷ jobs) = ground (arith, stays st user j, count-update st user jobs)

count-select :
    (p q : Job → Bool) (jobs : List Job) → count_where p (select_where q jobs) ≤ count_where p jobs
unfolding count_where select_where
count-select p q [] = omega arith
count-select p q (j ∷ jobs) = ground (arith, count-select p q jobs)

count-snoc :
    (p : Job → Bool) (jobs : List Job) (j : Job)
    → count_where p (jobs ++ j ∷ []) ≡ count_where p jobs + one (p j)
unfolding count_where
count-snoc p [] j = omega arith
count-snoc p (k ∷ jobs) j = omega (arith, count-snoc p jobs j)

insert-WithinCap :
    (cap limit id user kind : ℕ) (params : List (ℕ × ℕ)) (now : ℕ) (jobs : List Job)
    → active_count user jobs < cap
    → WithinCap cap jobs
    → WithinCap cap (jobs ++ new_job id user kind params limit now ∷ [])
unfolding active_count new_job is_active
insert-WithinCap cap limit id user kind params now jobs room h u =
    ground (arith, h u, count-snoc (active_of u) jobs (new_job id user kind params limit now))

module _ (known : ℕ → Bool) (limit cap : ℕ) where
  capacity : Keeps limit cap (WithinCap cap)
  unfolding active_count
  capacity = record {
    update = λ st jobs h user. omega (arith, h user, count-update st user jobs);
    insert = λ id user kind params now jobs room h.
        insert-WithinCap cap limit id user kind params now jobs room h;
    purge = λ retention now jobs h user.
        omega
          (arith, h user, count-select (active_of user) (λ j. not (retired retention now j)) jobs);
  }

  -- If no user has more active jobs than the cap, none has after any history of a valid queue.
  pub run-WithinCap :
      (jobs : List Job) (ops : List QueueOp)
      → 0 < limit
      → All (IsValid limit) jobs
      → WithinCap cap jobs
      → WithinCap cap (run known limit cap jobs ops)
  run-WithinCap jobs ops pos v h = run-keeps known limit cap capacity jobs ops pos v h
