-- ===== src/Lease/Statements.antt =====
-- The statements that backend/services/research_jobs.py issues, and predicates of the table under them.
use quantumsentinel_web.Prelude.{
  ℕ, ◌+◌, ◌<◌, ◌≡◌, refl, Bool, true, not, Option, none, some, List, [], ◌∷◌, ◌++◌, arith, All,
  select_where, update_where, inl, inr,
}
use quantumsentinel_web.Jobs.{
  Job, queued_row, running_row, new_job, enqueue_new, enqueue, existing_job, flag_if_running,
  cancel_found, request_cancel, get_for_user, flagged, cancelled_at, active_count,
}
use quantumsentinel_web.Lease.{
  oldest_queued, claim_values, claim_round, claim_rounds, owned, renew_lease, succeed_with,
  fail_with, mark_as_cancelled, returned, renewed_until, fail, mark_cancelled, Finalized, store,
  task_error, complete, release, lapsed, stale, reap_values, reap_all, reap_expired, retired,
}
use quantumsentinel_web.Lease.Valid.{
  IsValid, claim-IsValid, flagged-IsValid, cancelled_at-IsValid, renewed_until-IsValid,
  finished-IsValid, returned-IsValid, reap-IsValid,
}

abbrev pub finished : (Job → Job) → ℕ → Job → Job
finished values now j = values (record j { finished_at = some now; lease_expires_at = none })

-- An UPDATE of the queue: its WHERE clause and its values.
pub data Statement (limit : ℕ) : (Job → Bool) → (Job → Job) → Type 0 where
  claims :
      (id worker now lease : ℕ) → Statement limit (queued_row id) (claim_values worker now lease)
  flags : (id : ℕ) → Statement limit (running_row id) flagged
  cancels : (id now : ℕ) → Statement limit (queued_row id) (cancelled_at now)
  renews :
      (id worker attempt until : ℕ)
      → Statement limit (owned id worker attempt) (renewed_until until)
  succeeds :
      (id worker attempt now result : ℕ)
      → Statement limit (owned id worker attempt) (finished (succeed_with result) now)
  fails :
      (id worker attempt now code : ℕ)
      → Statement limit (owned id worker attempt) (finished (fail_with code) now)
  marks :
      (id worker attempt now : ℕ)
      → Statement limit (owned id worker attempt) (finished mark_as_cancelled now)
  returns : (id worker attempt : ℕ) → Statement limit (owned id worker attempt) returned
  reaps :
      (now : ℕ) (j : Job)
      → j.max_attempts ≡ limit
      → Statement limit (stale now j) (reap_values now j)

pub Statement-IsValid :
    {limit : ℕ} {p : Job → Bool} {f : Job → Job}
    → Statement limit p f
    → (j : Job) → p j ≡ true
    → IsValid limit j
    → IsValid limit (f j)
Statement-IsValid {limit} (claims id worker now lease) j h v =
    claim-IsValid limit id worker now lease j h v
Statement-IsValid {limit} (flags id) j h v = flagged-IsValid limit j v
Statement-IsValid {limit} (cancels id now) j h v = cancelled_at-IsValid limit id now j h v
Statement-IsValid {limit} (renews id worker attempt until) j h v =
    renewed_until-IsValid limit until j v
Statement-IsValid {limit} (succeeds id worker attempt now result) j h v =
    finished-IsValid limit id worker attempt now (succeed_with result) j h (inr (result, inl refl))
      v
Statement-IsValid {limit} (fails id worker attempt now code) j h v =
    finished-IsValid limit id worker attempt now (fail_with code) j h (inr (code, inr refl)) v
Statement-IsValid {limit} (marks id worker attempt now) j h v =
    finished-IsValid limit id worker attempt now mark_as_cancelled j h (inl refl) v
Statement-IsValid {limit} (returns id worker attempt) j h v =
    returned-IsValid limit id worker attempt j h v
Statement-IsValid {limit} (reaps now k e) j h v = reap-IsValid limit now k j e h v

-- `cap` jobs of a user may be active at once.
pub record Keeps (limit cap : ℕ) (Q : List Job → Type 0) : Type 0 where
  pub update :
      {p : Job → Bool} {f : Job → Job}
      → Statement limit p f
      → (jobs : List Job) → Q jobs
      → Q (update_where p f jobs)
  pub insert :
      (id user kind : ℕ) (params : List (ℕ × ℕ)) (now : ℕ) (jobs : List Job)
      → active_count user jobs < cap
      → Q jobs
      → Q (jobs ++ new_job id user kind params limit now ∷ [])
  pub purge :
      (retention now : ℕ) (jobs : List Job)
      → Q jobs
      → Q (select_where (λ j. not (retired retention now j)) jobs)

budgets :
    (limit now : ℕ) (jobs : List Job)
    → All (IsValid limit) jobs
    → All (λ j. j.max_attempts ≡ limit) (select_where (lapsed now) jobs)
unfolding select_where
budgets limit now [] v = tt
budgets limit now (j ∷ jobs) v = ground (arith, budgets limit now jobs v.1, v.0.budget)

module _ {limit cap : ℕ} {Q : List Job → Type 0} (k : Keeps limit cap Q) where
  enqueue_new-keeps :
      (jobs : List Job) (o : Option Job) (id user kind : ℕ) (params : List (ℕ × ℕ)) (now : ℕ)
      → Q jobs
      → Q (enqueue_new jobs o cap (new_job id user kind params limit now)).0
  unfolding enqueue_new new_job
  enqueue_new-keeps jobs (some existing) id user kind params now h = h
  enqueue_new-keeps jobs none id user kind params now h =
      ground (
        arith,
        λ (room : active_count user jobs < cap). k.insert id user kind params now jobs room h,
      )

  pub enqueue-keeps :
      (known : ℕ → Bool) (jobs : List Job) (id user kind : ℕ) (params : List (ℕ × ℕ))
      (same_as : List ℕ) (now : ℕ)
      → Q jobs
      → Q (enqueue known cap limit jobs id user kind params same_as now).0
  unfolding enqueue
  enqueue-keeps known jobs id user kind params same_as now h = ground (
    arith,
    enqueue_new-keeps jobs (existing_job jobs user kind params same_as) id user kind params now h,
  )

  flag_if_running-keeps : (id : ℕ) (jobs : List Job) → Q jobs → Q (flag_if_running id jobs)
  unfolding flag_if_running
  flag_if_running-keeps id jobs h = ground (arith, k.update (flags id) jobs h)

  cancel_found-keeps :
      (o : Option Job) (seen : List Job) (now : ℕ) → Q seen → Q (cancel_found o seen now).0
  unfolding cancel_found
  cancel_found-keeps none seen now h = h
  cancel_found-keeps (some j) seen now h = ground (
    arith,
    k.update (flags j.id) seen h,
    k.update (cancels j.id now) seen h,
    flag_if_running-keeps j.id seen h,
  )

  pub request_cancel-keeps :
      (other : List Job → List Job) (jobs : List Job) (user id now : ℕ)
      → Q (other jobs)
      → Q (request_cancel other jobs user id now).0
  unfolding request_cancel
  request_cancel-keeps other jobs user id now h =
      cancel_found-keeps (get_for_user jobs user id) (other jobs) now h

  claim_round-keeps :
      (again : List Job → List Job × Option Job) (o : Option Job) (jobs seen : List Job)
      (worker now lease : ℕ)
      → ((left : List Job) → Q left → Q (again left).0)
      → Q jobs
      → Q seen
      → Q (claim_round again o jobs seen worker now lease).0
  unfolding claim_round
  claim_round-keeps again none jobs seen worker now lease more h hs = h
  claim_round-keeps again (some j) jobs seen worker now lease more h hs =
      let left = update_where (queued_row j.id) (claim_values worker now lease) seen in
      let claimed = k.update (claims j.id worker now lease) seen hs in
      ground (arith, claimed, more left claimed)

  pub claim_rounds-keeps :
      (others : List (List Job → List Job)) (jobs : List Job) (worker now lease : ℕ)
      → All (λ other. (seen : List Job) → Q seen → Q (other seen)) others
      → Q jobs
      → Q (claim_rounds others jobs worker now lease).0
  unfolding claim_rounds
  claim_rounds-keeps [] jobs worker now lease hs h = h
  claim_rounds-keeps (other ∷ others) jobs worker now lease hs h =
      claim_round-keeps (λ left. claim_rounds others left worker now lease) (oldest_queued jobs)
        jobs (other jobs) worker now lease
        (λ left q. claim_rounds-keeps others left worker now lease hs.1 q) h (hs.0 jobs h)

  pub renew_lease-keeps :
      (jobs : List Job) (id worker attempt now lease : ℕ)
      → Q jobs
      → Q (renew_lease jobs id worker attempt now lease).0
  unfolding renew_lease
  renew_lease-keeps jobs id worker attempt now lease h =
      k.update (renews id worker attempt (now + lease)) jobs h

  pub fail-keeps :
      (jobs : List Job) (id worker attempt code now : ℕ)
      → Q jobs
      → Q (fail jobs id worker attempt code now).0
  unfolding fail
  fail-keeps jobs id worker attempt code now h = k.update (fails id worker attempt now code) jobs h

  pub complete-keeps :
      (jobs : List Job) (id worker attempt : ℕ) (r : Finalized) (now : ℕ)
      → Q jobs
      → Q (complete jobs id worker attempt r now).0
  unfolding complete
  complete-keeps jobs id worker attempt (store result) now h =
      k.update (succeeds id worker attempt now result) jobs h
  complete-keeps jobs id worker attempt (task_error code) now h =
      fail-keeps jobs id worker attempt code now h

  pub mark_cancelled-keeps :
      (jobs : List Job) (id worker attempt now : ℕ)
      → Q jobs
      → Q (mark_cancelled jobs id worker attempt now).0
  unfolding mark_cancelled
  mark_cancelled-keeps jobs id worker attempt now h = k.update (marks id worker attempt now) jobs h

  pub release-keeps :
      (jobs : List Job) (id worker attempt : ℕ) → Q jobs → Q (release jobs id worker attempt).0
  unfolding release
  release-keeps jobs id worker attempt h = k.update (returns id worker attempt) jobs h

  reap_all-keeps :
      (expired jobs : List Job) (now : ℕ)
      → All (λ j. j.max_attempts ≡ limit) expired
      → Q jobs
      → Q (reap_all expired jobs now).0
  unfolding reap_all
  reap_all-keeps [] jobs now b h = h
  reap_all-keeps (j ∷ expired) jobs now b h =
      reap_all-keeps expired (update_where (stale now j) (reap_values now j) jobs) now b.1
        (k.update (reaps now j b.0) jobs h)

  pub reap_expired-keeps :
      (other : List Job → List Job) (jobs : List Job) (now : ℕ)
      → All (IsValid limit) jobs
      → Q (other jobs)
      → Q (reap_expired other jobs now).0
  unfolding reap_expired
  reap_expired-keeps other jobs now v h =
      reap_all-keeps (select_where (lapsed now) jobs) (other jobs) now (budgets limit now jobs v) h
