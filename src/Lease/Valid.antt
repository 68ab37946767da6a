-- ===== src/Lease/Valid.antt =====
-- What a job of the queue has in each status (backend/services/research_jobs.py).
use quantumsentinel_web.Prelude.{
  ℕ, ◌≤◌, ◌<◌, ◌≡◌, ◌⊎◌, true, false, Option, none, some, List, arith, inl, inr,
}
use quantumsentinel_web.Jobs.{
  queued, running, succeeded, is_queued, is_running, is_terminal, Job, queued_row, new_job, flagged,
  cancelled_at,
}
use quantumsentinel_web.Lease.{
  claim_values, owned, succeed_with, fail_with, mark_as_cancelled, returned, renewed_until, stale,
  reap_values,
}

abbrev pub IsSome : Option ℕ → Type 0
IsSome none = ⊥
IsSome (some n) = Unit

-- With the same limit of attempts for every job: the attempts that count, which leaves out those that
-- were handed back, are within it, and below it for a job in the queue; a running one has a worker and a lease, a finished one has its time, and one that has not finished
-- has no result.
pub record IsValid (limit : ℕ) (j : Job) : Type 0 where
  pub budget : j.max_attempts ≡ limit
  pub capped : j.attempts ≤ limit
  pub runnable : j.status ≡ queued → j.attempts < limit
  pub counted : j.status ≡ running → 0 < j.attempts
  pub worked : j.status ≡ running → IsSome j.worker_id
  pub leased : j.status ≡ running → IsSome j.lease_expires_at
  pub timed : is_terminal j.status ≡ true → IsSome j.finished_at
  pub unfinished : is_terminal j.status ≡ false → (j.finished_at ≡ none) × (j.result ≡ none)
  pub stored : j.status ≡ succeeded → IsSome j.result

-- One row under each statement of the queue.
module _ (limit : ℕ) where
  pub new_job-IsValid :
      (id user kind : ℕ) (params : List (ℕ × ℕ)) (now : ℕ)
      → 0 < limit
      → IsValid limit (new_job id user kind params limit now)
  unfolding new_job is_terminal
  new_job-IsValid id user kind params now h = ground arith

  pub claim-IsValid :
      (id worker now lease : ℕ) (j : Job)
      → queued_row id j ≡ true
      → IsValid limit j
      → IsValid limit (claim_values worker now lease j)
  unfolding claim_values is_terminal is_queued
  claim-IsValid id worker now lease j p v = ground arith

  pub flagged-IsValid : (j : Job) → IsValid limit j → IsValid limit (flagged j)
  flagged-IsValid j v = ground arith

  pub cancelled_at-IsValid :
      (id now : ℕ) (j : Job)
      → queued_row id j ≡ true
      → IsValid limit j
      → IsValid limit (cancelled_at now j)
  unfolding is_terminal
  cancelled_at-IsValid id now j p v = ground arith

  pub renewed_until-IsValid :
      (until : ℕ) (j : Job) → IsValid limit j → IsValid limit (renewed_until until j)
  renewed_until-IsValid until j v = ground arith

  -- A terminal status with the columns that go with it.
  pub finished-IsValid :
      (id worker attempt now : ℕ) (values : Job → Job) (j : Job)
      → owned id worker attempt j ≡ true
      → (values ≡ mark_as_cancelled)
        ⊎ ((n : ℕ) × ((values ≡ succeed_with n) ⊎ (values ≡ fail_with n)))
      → IsValid limit j
      → IsValid limit (values (record j { finished_at = some now; lease_expires_at = none }))
  finished-IsValid id worker attempt now values j p (inl e) v =
      rw e (unfold is_terminal in ground arith)
  finished-IsValid id worker attempt now values j p (inr (n, inl e)) v =
      rw e (unfold is_terminal in ground arith)
  finished-IsValid id worker attempt now values j p (inr (n, inr e)) v =
      rw e (unfold is_terminal in ground arith)

  pub returned-IsValid :
      (id worker attempt : ℕ) (j : Job)
      → owned id worker attempt j ≡ true
      → IsValid limit j
      → IsValid limit (returned j)
  unfolding returned is_terminal is_running
  returned-IsValid id worker attempt j p v = ground arith

  pub reap-IsValid :
      (now : ℕ) (j k : Job)
      → j.max_attempts ≡ limit
      → stale now j k ≡ true
      → IsValid limit k
      → IsValid limit (reap_values now j k)
  unfolding reap_values is_terminal is_running
  reap-IsValid now j k m p v = ground arith
