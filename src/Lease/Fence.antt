-- ===== src/Lease/Fence.antt =====
-- Which worker may write a job, and which job a worker gets (backend/services/research_jobs.py).
use quantumsentinel_web.Prelude.{
  ℕ, ap, ◌⊎◌, ◌≢◌, ◌+◌, ◌≤◌, ◌≡◌, refl, Bool, true, false, ◌==◌, Option, none, some, List, [], ◌∷◌,
  arith, All, select_where, update_where, update_where_none, count_where_none, inl, inr, Bool-cases,
}
use quantumsentinel_web.Prelude.Sorted.{first-order_by_least}
use quantumsentinel_web.Jobs.{
  JobStatus, queued, running, is_running, is_some_of, succeeded, failed, cancelled, is_queued, Job,
  queued_row,
}
use quantumsentinel_web.Lease.{
  oldest_queued, claim_values, claim_round, owned, owned_update, renewed_until, renew_lease, lost,
  finish, fail, mark_cancelled, complete, Finalized, store, task_error, release,
}

-- The rows with the id of `j` are `j`.
abbrev pub Only : Job → List Job → Type 0
Only j jobs = All (λ k. k.id ≡ j.id → k ≡ j) jobs

same_owner :
    (j k : Job) (worker attempt : ℕ) (b : Bool)
    → (k.id == j.id) ≡ b
    → (k.id ≡ j.id → k ≡ j)
    → owned j.id worker attempt j ≡ false
    → owned j.id worker attempt k ≡ false
same_owner j k worker attempt true e o h = rw (o (ground arith)) h
same_owner j k worker attempt false e o h = rw e refl

not_owned :
    (j : Job) (worker attempt : ℕ) (jobs : List Job)
    → Only j jobs
    → owned j.id worker attempt j ≡ false
    → All (λ k. owned j.id worker attempt k ≡ false) jobs
not_owned j worker attempt [] o h = tt
not_owned j worker attempt (k ∷ jobs) o h =
    (same_owner j k worker attempt (k.id == j.id) refl o.0 h, not_owned j worker attempt jobs o.1 h)

-- What each of the five operations of a worker does when it is refused.
abbrev pub Refused : List Job → ℕ → ℕ → ℕ → Type 0
Refused jobs id worker attempt =
    ((outcome : Finalized) (now : ℕ) → complete jobs id worker attempt outcome now ≡ (jobs, false))
    × ((code now : ℕ) → fail jobs id worker attempt code now ≡ (jobs, false))
    × ((now : ℕ) → mark_cancelled jobs id worker attempt now ≡ (jobs, false))
    × (release jobs id worker attempt ≡ (jobs, false))
    × ((now lease : ℕ) → renew_lease jobs id worker attempt now lease ≡ (jobs, lost))

module _ (jobs : List Job) (id worker attempt : ℕ)
    (none_owned : All (λ k. owned id worker attempt k ≡ false) jobs) where
  owned_update_refused :
      (values : Job → Job) → owned_update values jobs id worker attempt ≡ (jobs, false)
  unfolding owned_update
  owned_update_refused values = rw (
    update_where_none (owned id worker attempt) values jobs none_owned,
    count_where_none (owned id worker attempt) jobs none_owned,
  )

  fail_refused : (code now : ℕ) → fail jobs id worker attempt code now ≡ (jobs, false)
  unfolding fail finish
  fail_refused code now = owned_update_refused _

  complete_refused :
      (outcome : Finalized) (now : ℕ) → complete jobs id worker attempt outcome now ≡ (jobs, false)
  unfolding complete finish
  complete_refused (store result) now = owned_update_refused _
  complete_refused (task_error code) now = fail_refused code now

  mark_cancelled_refused : (now : ℕ) → mark_cancelled jobs id worker attempt now ≡ (jobs, false)
  unfolding mark_cancelled finish
  mark_cancelled_refused now = owned_update_refused _

  release_refused : release jobs id worker attempt ≡ (jobs, false)
  unfolding release
  release_refused = owned_update_refused _

  renew_lease_refused :
      (now lease : ℕ) → renew_lease jobs id worker attempt now lease ≡ (jobs, lost)
  unfolding renew_lease owned_update
  renew_lease_refused now lease =
      rw
        (
          update_where_none (owned id worker attempt) (renewed_until (now + lease)) jobs none_owned,
          count_where_none (owned id worker attempt) jobs none_owned,
        )
        refl

  all-Refused : Refused jobs id worker attempt
  all-Refused =
      (complete_refused, fail_refused, mark_cancelled_refused, release_refused, renew_lease_refused)

-- Another worker has the job, or another attempt of this one, or nobody runs it.
abbrev pub Stranger : ℕ → ℕ → Job → Type 0
Stranger worker attempt j =
    (j.worker_id ≢ some worker) ⊎ ((j.attempts ≢ attempt) ⊎ (j.status ≢ running))

running_only : (s : JobStatus) → s ≢ running → is_running s ≡ false
unfolding is_running
running_only queued n = refl
running_only running n = absurd (n refl)
running_only succeeded n = refl
running_only failed n = refl
running_only cancelled n = refl

worker_only : (o : Option ℕ) (worker : ℕ) → o ≢ some worker → is_some_of o worker ≡ false
worker_only none worker n = refl
worker_only (some w) worker n = elim (Bool-cases (w == worker)) [
  | inl e ↦ let same : w ≡ worker = ground arith in absurd (n (ap (λ v. some v) same))
  | inr e ↦ e
]

Stranger-owned :
    (j : Job) (worker attempt : ℕ) → Stranger worker attempt j → owned j.id worker attempt j ≡ false
Stranger-owned j worker attempt (inl n) = ground (arith, worker_only j.worker_id worker n)
Stranger-owned j worker attempt (inr (inl n)) = ground arith
Stranger-owned j worker attempt (inr (inr n)) = ground (arith, running_only j.status n)

-- A worker that does not run a job (another worker or another attempt of this one has it, or it
-- is not running) can neither finish, return nor renew it: each of the five operations leaves the
-- table as it is and answers that the job is not this worker's. The job's id is unique.
pub Stranger-Refused :
    (jobs : List Job) (j : Job) (worker attempt : ℕ)
    → Only j jobs
    → Stranger worker attempt j
    → Refused jobs j.id worker attempt
Stranger-Refused jobs j worker attempt o h =
    all-Refused jobs j.id worker attempt
      (not_owned j worker attempt jobs o (Stranger-owned j worker attempt h))

none_after :
    (p : Job → Bool) (f : Job → Job)
    → ((k : Job) → p (f k) ≡ false)
    → (jobs : List Job) → All (λ k. p k ≡ false) (update_where p f jobs)
unfolding update_where
none_after p f h [] = tt
none_after p f h (k ∷ jobs) =
    (elim (Bool-cases (p k)) [ inl e ↦ rw e (h k) | inr e ↦ rw e e ], none_after p f h jobs)

claimed_row :
    (id : ℕ) (k : Job) (worker now lease : ℕ)
    → queued_row id (claim_values worker now lease k) ≡ false
unfolding claim_values is_queued
claimed_row id k worker now lease = elim (Bool-cases (k.id == id)) [
  | inl e ↦ rw e refl
  | inr e ↦ rw e refl
]

-- Of two workers that read the same oldest job, the one whose UPDATE comes second does not get it,
-- and goes on to its next round with the table as the first one left it.
pub claimed_once :
    (again : List Job → List Job × Option Job) (j : Job) (jobs seen : List Job)
    (first second now now' lease : ℕ)
    → claim_round again
        (some j)
        jobs
        (update_where (queued_row j.id) (claim_values first now lease) seen)
        second
        now'
        lease
      ≡ again (update_where (queued_row j.id) (claim_values first now lease) seen)
unfolding claim_round claim_values
claimed_once again j jobs seen first second now now' lease =
    let claimed = update_where (queued_row j.id) (claim_values first now lease) seen in
    let gone =
      none_after (queued_row j.id) (claim_values first now lease)
        (λ k. claimed_row j.id k first now lease) seen in
    rw
      (
        count_where_none (queued_row j.id) claimed gone,
        update_where_none (queued_row j.id) (claim_values second now' lease) claimed gone,
      )
      refl

-- The job that a worker tries to take is the oldest of those that are queued.
pub oldest_first :
    (jobs : List Job) (j : Job)
    → oldest_queued jobs ≡ some j
    → All (λ k. j.created_at ≤ k.created_at) (select_where (λ k. is_queued k.status) jobs)
unfolding oldest_queued
oldest_first jobs j e =
    first-order_by_least (λ k. k.created_at) (select_where (λ k. is_queued k.status) jobs) j e
