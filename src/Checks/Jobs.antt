-- ===== src/Checks/Jobs.antt =====
-- The research job queue: two queued jobs of a user, with at most two runs of a job and three active
-- jobs for each user.
use quantumsentinel_web.Prelude.{ℕ, inl, refl, Bool, true, List, [], ◌∷◌, arith, All, count_where}
use quantumsentinel_web.Jobs.{Job, new_job, active_count}
use quantumsentinel_web.Lease.{claim_values, store}
use quantumsentinel_web.Lease.Valid.{IsValid, new_job-IsValid}
use quantumsentinel_web.Lease.Histories.{
  QueueOp, enqueues, claims_next, completes, reaps_expired, purges, run, run-IsValid,
}
use quantumsentinel_web.Lease.Terminal.{Descends, run-Descends}
use quantumsentinel_web.Lease.Capacity.{WithinCap, run-WithinCap}
use quantumsentinel_web.Lease.Fence.{Refused, Stranger-Refused}

abbrev first : Job
first = new_job 1 9 0 [] 2 10

abbrev second : Job
second = new_job 2 9 0 [] 2 20

abbrev jobs : List Job
jobs = second ∷ first ∷ []

abbrev known : ℕ → Bool
known kind = true

abbrev history : List QueueOp
history =
    enqueues 3 9 0 [] [] 30
    ∷ claims_next 5 40 60
    ∷ completes 1 5 1 (store 77) 50
    ∷ claims_next 6 60 60
    ∷ reaps_expired 200
    ∷ purges 100 1000 300
    ∷ []

valid : All (IsValid 2) jobs
valid =
    (new_job-IsValid 2 2 9 0 [] 20 (omega arith), (new_job-IsValid 2 1 9 0 [] 10 (omega arith), tt))

run-IsValid_example : All (IsValid 2) (run known 2 3 jobs history)
run-IsValid_example = run-IsValid known 2 3 jobs history (omega arith) valid

run-Descends_example : Descends jobs (run known 2 3 jobs history)
run-Descends_example = run-Descends known 2 3 jobs history (omega arith) valid

two : WithinCap 3 jobs
unfolding active_count count_where new_job
two user = ground arith

run-WithinCap_example : WithinCap 3 (run known 2 3 jobs history)
run-WithinCap_example = run-WithinCap known 2 3 jobs history (omega arith) valid two

abbrev claimed : Job
claimed = claim_values 5 40 60 first

Stranger-Refused_example : Refused (claimed ∷ second ∷ []) 1 6 1
unfolding claim_values new_job
Stranger-Refused_example =
    Stranger-Refused (claimed ∷ second ∷ []) claimed 6 1
      ((λ e. refl), ((λ e. absurd (ground arith)), tt)) (inl (λ e. cc))
