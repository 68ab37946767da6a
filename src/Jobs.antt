-- ===== src/Jobs.antt =====
-- The research job queue (backend/services/research_jobs.py). Each operation is one transaction of
-- compare-and-set statements on the table of jobs; the time and the limits of the configuration are
-- arguments. Ids, users, workers and result texts are only compared or stored: numbers here.
-- The operations of the workers are in Lease.antt.
use quantumsentinel_web.Prelude.{
  ℕ, suc, ◌+◌, Bool, true, false, ◌&&◌, ltb, leb, ◌==◌, if◌then◌else◌, Option, none, some, List, [],
  ◌∷◌, ◌++◌, update_where, count_where, select_where, first_where, order_by,
}

pub data JobStatus : Type 0 where
  queued running succeeded failed cancelled : JobStatus

unfoldable pub is_queued : JobStatus → Bool
is_queued queued = true
is_queued _ = false

unfoldable pub is_running : JobStatus → Bool
is_running running = true
is_running _ = false

-- `in ACTIVE`
unfoldable pub is_active : JobStatus → Bool
is_active queued = true
is_active running = true
is_active _ = false

-- `in TERMINAL`
unfoldable pub is_terminal : JobStatus → Bool
is_terminal succeeded = true
is_terminal failed = true
is_terminal cancelled = true
is_terminal _ = false

pub record Job : Type 0 where
  pub id : ℕ
  pub user_id : ℕ
  pub kind : ℕ
  pub params : List (ℕ × ℕ)
  pub status : JobStatus
  pub cancel_requested : Bool
  pub attempts : ℕ
  pub max_attempts : ℕ
  pub worker_id : Option ℕ
  pub lease_expires_at : Option ℕ
  pub created_at : ℕ
  pub started_at : Option ℕ
  pub finished_at : Option ℕ
  pub result : Option ℕ
  pub error_status : Option ℕ

pub record Worker : Type 0 where
  pub id : ℕ
  pub last_seen_at : ℕ
  pub current_job : Option ℕ

abbrev pub is_some_of : Option ℕ → ℕ → Bool
is_some_of o n = elim o [ none ↦ false | some m ↦ m == n ]

abbrev pub before : Option ℕ → ℕ → Bool
before o n = elim o [ none ↦ false | some m ↦ ltb m n ]

-- API side

unfoldable pub param : ℕ → List (ℕ × ℕ) → Option ℕ
param f [] = none
param f ((k, v) ∷ rest) = if k == f then some v else param f rest

abbrev pub same_value : Option ℕ → Option ℕ → Bool
same_value none none = true
same_value (some a) (some b) = a == b
same_value _ _ = false

-- `all(existing.params.get(f) == params.get(f) for f in same_as)`
unfoldable pub same_params : List ℕ → List (ℕ × ℕ) → List (ℕ × ℕ) → Bool
unfolding param
same_params [] existing params = true
same_params (f ∷ fs) existing params =
    same_value (param f existing) (param f params) && same_params fs existing params

abbrev pub active_of : ℕ → Job → Bool
active_of user j = j.user_id == user && is_active j.status

unfoldable pub active_count : ℕ → List Job → ℕ
active_count user jobs = count_where (active_of user) jobs

unfoldable pub new_job : ℕ → ℕ → ℕ → List (ℕ × ℕ) → ℕ → ℕ → Job
new_job id user kind params max_attempts now = record {
  id = id;
  user_id = user;
  kind = kind;
  params = params;
  status = queued;
  cancel_requested = false;
  attempts = 0;
  max_attempts = max_attempts;
  worker_id = none;
  lease_expires_at = none;
  created_at = now;
  started_at = none;
  finished_at = none;
  result = none;
  error_status = none;
}

pub data Enqueued : Type 0 where
  job_of : Job → Enqueued
  queue_full : ℕ → Enqueued
  unknown_kind : Enqueued

-- `if same_as:` an earlier active job of the kind with the same parameters, oldest first.
unfoldable pub existing_job : List Job → ℕ → ℕ → List (ℕ × ℕ) → List ℕ → Option Job
unfolding same_params
existing_job jobs user kind params [] = none
existing_job jobs user kind params (f ∷ fs) =
    first_where (λ j. same_params (f ∷ fs) j.params params)
      (order_by (λ j. j.created_at) (select_where (λ j. active_of user j && j.kind == kind) jobs))

unfoldable pub enqueue_new : List Job → Option Job → ℕ → Job → List Job × Enqueued
unfolding active_count
enqueue_new jobs (some existing) limit job = (jobs, job_of existing)
enqueue_new jobs none limit job =
    let active = active_count job.user_id jobs in
    if leb limit active then (jobs, queue_full active) else (jobs ++ job ∷ [], job_of job)

-- `known` tells the kinds of the table KINDS; `id` is the fresh id of the new row.
unfoldable pub enqueue :
    (ℕ → Bool) → ℕ → ℕ → List Job → ℕ → ℕ → ℕ → List (ℕ × ℕ) → List ℕ → ℕ → List Job × Enqueued
unfolding existing_job enqueue_new new_job
enqueue known limit max_attempts jobs id user kind params same_as now =
    if known kind
    then enqueue_new jobs (existing_job jobs user kind params same_as) limit
        (new_job id user kind params max_attempts now)
    else (jobs, unknown_kind)

abbrev pub job_with_id : ℕ → Job → Bool
job_with_id id j = j.id == id

unfoldable pub get_for_user : List Job → ℕ → ℕ → Option Job
get_for_user jobs user id = elim (first_where (job_with_id id) jobs) [
  | none ↦ none
  | some j ↦ if j.user_id == user then some j else none
]

abbrev pub queued_row : ℕ → Job → Bool
queued_row id j = j.id == id && is_queued j.status

abbrev pub running_row : ℕ → Job → Bool
running_row id j = j.id == id && is_running j.status

abbrev pub flagged : Job → Job
flagged j = record j { cancel_requested = true }

abbrev pub cancelled_at : ℕ → Job → Job
cancelled_at now j = record j { status = cancelled; finished_at = some now }

abbrev pub flag_cancel : ℕ → List Job → List Job
flag_cancel id jobs = update_where (running_row id) flagged jobs

-- The row as it is read again after the first statement missed it.
unfoldable pub flag_if_running : ℕ → List Job → List Job
flag_if_running id jobs = elim (first_where (job_with_id id) jobs) [
  | none ↦ jobs
  | some j ↦ if is_running j.status then flag_cancel id jobs else jobs
]

-- `seen` is the table when the statements run, after the read of `j`.
unfoldable pub cancel_found : Option Job → List Job → ℕ → List Job × Bool
unfolding flag_if_running
cancel_found none seen now = (seen, false)
cancel_found (some j) seen now =
    if is_queued j.status
    then (
      if count_where (queued_row j.id) seen == 0
          then flag_if_running j.id seen
          else update_where (queued_row j.id) (cancelled_at now) seen,
      true,
    )
    else if is_running j.status
    then (flag_cancel j.id seen, true)
    else (seen, true)

-- `other` is what is committed between the read and the write. False: no such job of the user.
unfoldable pub request_cancel : (List Job → List Job) → List Job → ℕ → ℕ → ℕ → List Job × Bool
unfolding get_for_user cancel_found
request_cancel other jobs user id now = cancel_found (get_for_user jobs user id) (other jobs) now

-- `1 + count(queued jobs created earlier)`
unfoldable pub queue_position : List Job → Job → ℕ
queue_position jobs j =
    suc (count_where (λ k. is_queued k.status && ltb k.created_at j.created_at) jobs)

unfoldable pub workers_online : List Worker → ℕ → ℕ
workers_online workers now = count_where (λ w. leb now (w.last_seen_at + 30)) workers
