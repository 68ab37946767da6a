-- ===== src/Lease.antt =====
-- The worker's side of the research job queue (backend/services/research_jobs.py: claim_next to
-- purge_finished). An operation that reads before it writes takes what other processes commit in
-- between as an argument.
pub mod Valid
mod Statements
pub mod Fence
pub mod Histories
pub mod Terminal
pub mod Capacity
use quantumsentinel_web.Prelude.{
  ℕ, suc, ◌+◌, ◌-◌, Bool, true, false, not, ◌&&◌, ◌||◌, ltb, leb, ◌==◌, if◌then◌else◌, Option, none,
  some, List, [], ◌∷◌, ◌++◌, update_where, count_where, select_where, first_where, order_by,
}
use quantumsentinel_web.Jobs.{
  JobStatus, queued, running, succeeded, failed, cancelled, is_queued, is_running, is_active,
  is_terminal, Job, Worker, is_some_of, before, job_with_id, queued_row,
}

unfoldable pub oldest_queued : List Job → Option Job
oldest_queued jobs =
    first_where (λ j. true)
      (order_by (λ j. j.created_at) (select_where (λ j. is_queued j.status) jobs))

unfoldable pub claim_values : ℕ → ℕ → ℕ → Job → Job
claim_values worker now lease j = record j {
  status = running;
  worker_id = some worker;
  attempts = j.attempts + 1;
  started_at = some now;
  lease_expires_at = some (now + lease);
}

-- One round: `seen` is the table when the UPDATE runs, `again` the rounds that are left.
unfoldable pub claim_round :
    (List Job → List Job × Option Job)
    → Option Job
    → List Job
    → List Job
    → ℕ
    → ℕ
    → ℕ
    → List Job × Option Job
claim_round again none jobs seen worker now lease = (jobs, none)
claim_round again (some j) jobs seen worker now lease =
    let jobs' = update_where (queued_row j.id) (claim_values worker now lease) seen in
    if count_where (queued_row j.id) seen == 0
    then again jobs'
    else (jobs', first_where (job_with_id j.id) jobs')

-- A round for each element of `others`: what is committed between the read and the write.
unfoldable pub claim_rounds :
    List (List Job → List Job) → List Job → ℕ → ℕ → ℕ → List Job × Option Job
unfolding oldest_queued claim_values claim_round
claim_rounds [] jobs worker now lease = (jobs, none)
claim_rounds (other ∷ others) jobs worker now lease =
    claim_round (λ left. claim_rounds others left worker now lease) (oldest_queued jobs) jobs
      (other jobs) worker now lease

-- `_owned`
abbrev pub owned : ℕ → ℕ → ℕ → Job → Bool
owned id worker attempt j =
    (j.id == id && is_some_of j.worker_id worker) && (j.attempts == attempt && is_running j.status)

unfoldable pub owned_update : (Job → Job) → List Job → ℕ → ℕ → ℕ → List Job × Bool
owned_update values jobs id worker attempt = (
  update_where (owned id worker attempt) values jobs,
  not (count_where (owned id worker attempt) jobs == 0),
)

pub data Renewal : Type 0 where
  renewed_ok cancel lost : Renewal

unfoldable pub cancel_requested : List Job → ℕ → Bool
cancel_requested jobs id = elim (first_where (job_with_id id) jobs) [
  | none ↦ false
  | some j ↦ j.cancel_requested
]

abbrev pub renewed_until : ℕ → Job → Job
renewed_until until j = record j { lease_expires_at = some until }

unfoldable pub renew_lease : List Job → ℕ → ℕ → ℕ → ℕ → ℕ → List Job × Renewal
unfolding owned_update cancel_requested
renew_lease jobs id worker attempt now lease =
    let (jobs', renewed) = owned_update (renewed_until (now + lease)) jobs id worker attempt in
    (jobs', if not renewed then lost else if cancel_requested jobs' id then cancel else renewed_ok)

-- `_finish` of this worker's run, with the columns that it sets besides.
unfoldable pub finish : (Job → Job) → List Job → ℕ → ℕ → ℕ → ℕ → List Job × Bool
unfolding owned_update
finish values jobs id worker attempt now =
    owned_update (λ j. values (record j { finished_at = some now; lease_expires_at = none })) jobs
      id worker attempt

abbrev pub succeed_with : ℕ → Job → Job
succeed_with result j = record j { status = succeeded; result = some result }

abbrev pub fail_with : ℕ → Job → Job
fail_with status_code j = record j { status = failed; error_status = some status_code }

abbrev pub mark_as_cancelled : Job → Job
mark_as_cancelled j = record j { status = cancelled }

-- `fail`, `mark_cancelled`: true if the job was this worker's.
unfoldable pub fail : List Job → ℕ → ℕ → ℕ → ℕ → ℕ → List Job × Bool
unfolding finish
fail jobs id worker attempt status_code now =
    finish (fail_with status_code) jobs id worker attempt now

unfoldable pub mark_cancelled : List Job → ℕ → ℕ → ℕ → ℕ → List Job × Bool
unfolding finish
mark_cancelled jobs id worker attempt now = finish mark_as_cancelled jobs id worker attempt now

-- What the kind's finalizer made of the outcome: the result to store, or a TaskError.
pub data Finalized : Type 0 where
  store : ℕ → Finalized
  task_error : ℕ → Finalized

unfoldable pub complete : List Job → ℕ → ℕ → ℕ → Finalized → ℕ → List Job × Bool
unfolding finish fail
complete jobs id worker attempt (store result) now =
    finish (succeed_with result) jobs id worker attempt now
complete jobs id worker attempt (task_error status_code) now =
    fail jobs id worker attempt status_code now

unfoldable pub returned : Job → Job
returned j = record j {
  status = queued;
  worker_id = none;
  lease_expires_at = none;
  attempts = j.attempts - 1;
}

unfoldable pub release : List Job → ℕ → ℕ → ℕ → List Job × Bool
unfolding owned_update returned
release jobs id worker attempt = owned_update returned jobs id worker attempt

abbrev pub lapsed : ℕ → Job → Bool
lapsed now j = is_running j.status && before j.lease_expires_at now

abbrev pub same_worker : Option ℕ → Option ℕ → Bool
same_worker none none = true
same_worker (some a) (some b) = a == b
same_worker _ _ = false

-- The row is still the one that was read as `j`.
abbrev pub stale : ℕ → Job → Job → Bool
stale now j k =
    (k.id == j.id && same_worker k.worker_id j.worker_id)
    && (k.attempts == j.attempts && lapsed now k)

unfoldable pub reap_values : ℕ → Job → Job → Job
reap_values now j k =
    if j.cancel_requested
    then record k { status = cancelled; finished_at = some now; lease_expires_at = none }
    else if ltb j.attempts j.max_attempts
    then record k { status = queued; worker_id = none; lease_expires_at = none }
    else record k {
      status = failed;
      finished_at = some now;
      lease_expires_at = none;
      error_status = some 500;
    }

unfoldable pub reap_all : List Job → List Job → ℕ → List Job × ℕ
unfolding reap_values
reap_all [] jobs now = (jobs, 0)
reap_all (j ∷ expired) jobs now =
    let (jobs', reaped) =
      reap_all expired (update_where (stale now j) (reap_values now j) jobs) now in
    (jobs', count_where (stale now j) jobs + reaped)

unfoldable pub reap_expired : (List Job → List Job) → List Job → ℕ → List Job × ℕ
unfolding reap_all
reap_expired other jobs now = reap_all (select_where (lapsed now) jobs) (other jobs) now

unfoldable pub heartbeat_worker : List Worker → ℕ → Option ℕ → ℕ → List Worker
heartbeat_worker workers id current now =
    if count_where (λ w. w.id == id) workers == 0
    then workers ++ record { id = id; last_seen_at = now; current_job = current } ∷ []
    else update_where (λ w. w.id == id)
        (λ w. record w { last_seen_at = now; current_job = current }) workers

unfoldable pub remove_worker : List Worker → ℕ → List Worker
remove_worker workers id = select_where (λ w. not (w.id == id)) workers

abbrev pub retired : ℕ → ℕ → Job → Bool
retired retention now j =
    is_terminal j.status && elim j.finished_at [ none ↦ false | some at ↦ ltb (at + retention) now ]

-- A day, in the unit of the times.
unfoldable pub purge_finished : List Job → List Worker → ℕ → ℕ → ℕ → List Job × List Worker × ℕ
purge_finished jobs workers retention day now = (
  select_where (λ j. not (retired retention now j)) jobs,
  select_where (λ w. not (ltb (w.last_seen_at + day) now)) workers,
  count_where (retired retention now) jobs,
)
