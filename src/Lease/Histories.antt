-- ===== src/Lease/Histories.antt =====
-- Histories of the queue of backend/services/research_jobs.py: API processes and workers in any
-- order, each operation one transaction.
use quantumsentinel_web.Prelude.{
  ℕ, ◌<◌, Bool, List, [], ◌∷◌, arith, All, All-append, All-update_where, select_where,
}
use quantumsentinel_web.Jobs.{Job, enqueue, request_cancel}
use quantumsentinel_web.Lease.{
  claim_rounds, renew_lease, fail, mark_cancelled, Finalized, complete, release, reap_expired,
  purge_finished,
}
use quantumsentinel_web.Lease.Valid.{IsValid, new_job-IsValid}
use quantumsentinel_web.Lease.Statements.{
  Statement-IsValid, Keeps, enqueue-keeps, request_cancel-keeps, claim_rounds-keeps,
  renew_lease-keeps, fail-keeps, complete-keeps, mark_cancelled-keeps, release-keeps,
  reap_expired-keeps,
}

pub data QueueOp : Type 0 where
  enqueues : (id user kind : ℕ) (params : List (ℕ × ℕ)) (same_as : List ℕ) (now : ℕ) → QueueOp
  asks_cancel : (user id now : ℕ) → QueueOp
  claims_next : (worker now lease : ℕ) → QueueOp
  renews_lease : (id worker attempt now lease : ℕ) → QueueOp
  completes : (id worker attempt : ℕ) (outcome : Finalized) (now : ℕ) → QueueOp
  fails_job : (id worker attempt code now : ℕ) → QueueOp
  marks_cancelled : (id worker attempt now : ℕ) → QueueOp
  hands_back : (id worker attempt : ℕ) → QueueOp
  reaps_expired : (now : ℕ) → QueueOp
  purges : (retention day now : ℕ) → QueueOp

abbrev alone : List Job → List Job
alone jobs = jobs

-- `limit` runs for each job, `cap` active jobs for each user, `known` kinds.
module _ (known : ℕ → Bool) (limit cap : ℕ) where
  unfoldable pub step : List Job → QueueOp → List Job
  step jobs (enqueues id user kind params same_as now) =
      (enqueue known cap limit jobs id user kind params same_as now).0
  step jobs (asks_cancel user id now) = (request_cancel alone jobs user id now).0
  step jobs (claims_next worker now lease) =
      (claim_rounds (alone ∷ alone ∷ alone ∷ alone ∷ alone ∷ []) jobs worker now lease).0
  step jobs (renews_lease id worker attempt now lease) =
      (renew_lease jobs id worker attempt now lease).0
  step jobs (completes id worker attempt outcome now) =
      (complete jobs id worker attempt outcome now).0
  step jobs (fails_job id worker attempt code now) = (fail jobs id worker attempt code now).0
  step jobs (marks_cancelled id worker attempt now) = (mark_cancelled jobs id worker attempt now).0
  step jobs (hands_back id worker attempt) = (release jobs id worker attempt).0
  step jobs (reaps_expired now) = (reap_expired alone jobs now).0
  step jobs (purges retention day now) = (purge_finished jobs [] retention day now).0

  unfoldable pub run : List Job → List QueueOp → List Job
  unfolding step
  run jobs [] = jobs
  run jobs (op ∷ ops) = run (step jobs op) ops

  step-keeps :
      {Q : List Job → Type 0} (k : Keeps limit cap Q) (jobs : List Job) (op : QueueOp)
      → All (IsValid limit) jobs
      → Q jobs
      → Q (step jobs op)
  unfolding step purge_finished
  step-keeps k jobs (enqueues id user kind params same_as now) v h =
      enqueue-keeps k known jobs id user kind params same_as now h
  step-keeps k jobs (asks_cancel user id now) v h = request_cancel-keeps k alone jobs user id now h
  step-keeps {Q} k jobs (claims_next worker now lease) v h =
      let same = λ (seen : List Job) (q : Q seen). q in
      claim_rounds-keeps k _ jobs worker now lease (same, (same, (same, (same, (same, tt))))) h
  step-keeps k jobs (renews_lease id worker attempt now lease) v h =
      renew_lease-keeps k jobs id worker attempt now lease h
  step-keeps k jobs (completes id worker attempt outcome now) v h =
      complete-keeps k jobs id worker attempt outcome now h
  step-keeps k jobs (fails_job id worker attempt code now) v h =
      fail-keeps k jobs id worker attempt code now h
  step-keeps k jobs (marks_cancelled id worker attempt now) v h =
      mark_cancelled-keeps k jobs id worker attempt now h
  step-keeps k jobs (hands_back id worker attempt) v h = release-keeps k jobs id worker attempt h
  step-keeps k jobs (reaps_expired now) v h = reap_expired-keeps k alone jobs now v h
  step-keeps k jobs (purges retention day now) v h = k.purge retention now jobs h

  All-select :
      (P : Job → Type 0) (p : Job → Bool) (jobs : List Job)
      → All P jobs
      → All P (select_where p jobs)
  unfolding select_where
  All-select P p [] h = tt
  All-select P p (j ∷ jobs) h = ground (arith, All-select P p jobs h.1, h.0)

  validity : 0 < limit → Keeps limit cap (All (IsValid limit))
  validity pos = record {
    update = λ st jobs h.
        All-update_where (IsValid limit) _ _ (λ j p v. Statement-IsValid st j p v) jobs h;
    insert = λ id user kind params now jobs room h.
        All-append (IsValid limit) jobs _ h (new_job-IsValid limit id user kind params now pos, tt);
    purge = λ retention now jobs h. All-select (IsValid limit) _ jobs h;
  }

  -- From a queue of valid jobs every history leads to one, where the limit of attempts is positive:
  -- no job counts more attempts than its limit (a job that is handed back counts one less), a queued
  -- one counts fewer, a running one has a worker and a lease, a finished one has its time and an
  -- unfinished one no result.
  pub run-IsValid :
      (jobs : List Job) (ops : List QueueOp)
      → 0 < limit
      → All (IsValid limit) jobs
      → All (IsValid limit) (run jobs ops)
  unfolding run
  run-IsValid jobs [] pos v = v
  run-IsValid jobs (op ∷ ops) pos v =
      run-IsValid (step jobs op) ops pos (step-keeps (validity pos) jobs op v v)

  pub run-keeps :
      {Q : List Job → Type 0} (k : Keeps limit cap Q) (jobs : List Job) (ops : List QueueOp)
      → 0 < limit
      → All (IsValid limit) jobs
      → Q jobs
      → Q (run jobs ops)
  unfolding run
  run-keeps k jobs [] pos v h = h
  run-keeps k jobs (op ∷ ops) pos v h =
      run-keeps k (step jobs op) ops pos (step-keeps (validity pos) jobs op v v)
        (step-keeps k jobs op v h)
