-- ===== src/Lease/Terminal.antt =====
-- Finished jobs over histories of backend/services/research_jobs.py.
use quantumsentinel_web.Prelude.{
  ℕ, ◌<◌, ◌≡◌, refl, ◌∙◌, Bool, true, false, not, List, [], ◌∷◌, ◌++◌, arith, All, if◌then◌else◌,
  select_where, update_where, Bool-cases, inl, inr,
}
use quantumsentinel_web.Jobs.{Job, is_terminal, is_queued, is_running}
use quantumsentinel_web.Lease.{retired, claim_values, returned, reap_values}
use quantumsentinel_web.Lease.Valid.{IsValid}
use quantumsentinel_web.Lease.Statements.{
  Statement, claims, flags, cancels, renews, succeeds, fails, marks, returns, reaps, Keeps,
}
use quantumsentinel_web.Lease.Histories.{run, QueueOp, run-keeps}

-- What may become of a row: it keeps its identity, and once it is finished everything.
pub record Evolves (j k : Job) : Type 0 where
  pub same_id : k.id ≡ j.id
  pub same_user : k.user_id ≡ j.user_id
  pub same_kind : k.kind ≡ j.kind
  pub same_params : k.params ≡ j.params
  pub frozen : is_terminal j.status ≡ true → k ≡ j

Evolves-refl : (j : Job) → Evolves j j
Evolves-refl j = record {
  same_id = refl;
  same_user = refl;
  same_kind = refl;
  same_params = refl;
  frozen = λ _. refl;
}

Evolves-trans : {j k l : Job} → Evolves j k → Evolves k l → Evolves j l
Evolves-trans {j} {k} {l} a b = record {
  same_id = b.same_id ∙ a.same_id;
  same_user = b.same_user ∙ a.same_user;
  same_kind = b.same_kind ∙ a.same_kind;
  same_params = b.same_params ∙ a.same_params;
  frozen = λ t. b.frozen (rw (a.frozen t) t) ∙ a.frozen t;
}

-- A statement selects no finished row.
selects_active :
    {limit : ℕ} {p : Job → Bool} {f : Job → Job}
    → Statement limit p f
    → (j : Job) → p j ≡ true
    → is_terminal j.status ≡ false
unfolding is_terminal is_queued is_running
selects_active (claims id worker now lease) j h = ground arith
selects_active (flags id) j h = ground arith
selects_active (cancels id now) j h = ground arith
selects_active (renews id worker attempt until) j h = ground arith
selects_active (succeeds id worker attempt now result) j h = ground arith
selects_active (fails id worker attempt now code) j h = ground arith
selects_active (marks id worker attempt now) j h = ground arith
selects_active (returns id worker attempt) j h = ground arith
selects_active (reaps now k e) j h = ground arith

record SameIdentity (j k : Job) : Type 0 where
  id : k.id ≡ j.id
  user : k.user_id ≡ j.user_id
  kind : k.kind ≡ j.kind
  params : k.params ≡ j.params

keeps_identity :
    {limit : ℕ} {p : Job → Bool} {f : Job → Job}
    → Statement limit p f
    → (j : Job) → SameIdentity j (f j)
unfolding claim_values returned reap_values
keeps_identity (reaps now k e) j = ground arith
keeps_identity (claims id worker now lease) j = ground arith
keeps_identity (flags id) j = ground arith
keeps_identity (cancels id now) j = ground arith
keeps_identity (renews id worker attempt until) j = ground arith
keeps_identity (succeeds id worker attempt now result) j = ground arith
keeps_identity (fails id worker attempt now code) j = ground arith
keeps_identity (marks id worker attempt now) j = ground arith
keeps_identity (returns id worker attempt) j = ground arith

Statement-Evolves :
    {limit : ℕ} {p : Job → Bool} {f : Job → Job}
    → Statement limit p f
    → (j : Job) → p j ≡ true
    → Evolves j (f j)
Statement-Evolves st j h =
    let same = keeps_identity st j in
    record {
      same_id = same.id;
      same_user = same.user;
      same_kind = same.kind;
      same_params = same.params;
      frozen = λ t. cc (selects_active st j h);
    }

-- Rows evolve in place or are deleted once finished, and new rows come behind.
pub data Descends : List Job → List Job → Type 0 where
  added : (ks : List Job) → Descends [] ks
  kept : {j k : Job} {js ks : List Job} → Evolves j k → Descends js ks → Descends (j ∷ js) (k ∷ ks)
  deleted :
      {j k : Job} {js ks : List Job}
      → Evolves j k
      → is_terminal k.status ≡ true
      → Descends js ks
      → Descends (j ∷ js) ks

Descends-refl : (js : List Job) → Descends js js
Descends-refl [] = added []
Descends-refl (j ∷ js) = kept (Evolves-refl j) (Descends-refl js)

Descends-trans : {js ks ls : List Job} → Descends js ks → Descends ks ls → Descends js ls
Descends-trans (added ks) d = added _
Descends-trans (deleted e t c) d = deleted e t (Descends-trans c d)
Descends-trans (kept e c) (kept e' d) = kept (Evolves-trans e e') (Descends-trans c d)
Descends-trans (kept e c) (deleted e' t d) = deleted (Evolves-trans e e') t (Descends-trans c d)

Descends-append : (js ks : List Job) → Descends js (js ++ ks)
Descends-append [] ks = added ks
Descends-append (j ∷ js) ks = kept (Evolves-refl j) (Descends-append js ks)

row_kept :
    (f : Job → Job) (j : Job) (b : Bool)
    → (b ≡ true → Evolves j (f j))
    → Evolves j (if b then f j else j)
row_kept f j true h = h refl
row_kept f j false h = Evolves-refl j

Descends-update :
    {limit : ℕ} {p : Job → Bool} {f : Job → Job}
    → Statement limit p f
    → (js : List Job) → Descends js (update_where p f js)
unfolding update_where
Descends-update st [] = added []
Descends-update {p} {f} st (j ∷ js) =
    kept (row_kept f j (p j) (Statement-Evolves st j)) (Descends-update st js)

retired_terminal :
    (retention now : ℕ) (j : Job) → retired retention now j ≡ true → is_terminal j.status ≡ true
retired_terminal retention now j h = ground arith

Descends-purge :
    (retention now : ℕ) (js : List Job)
    → Descends js (select_where (λ j. not (retired retention now j)) js)
unfolding select_where
Descends-purge retention now [] = added []
Descends-purge retention now (j ∷ js) = elim (Bool-cases (retired retention now j)) [
  | inl e ↦ rw e (
      deleted (Evolves-refl j) (retired_terminal retention now j e)
        (Descends-purge retention now js))
  | inr e ↦ rw e (kept (Evolves-refl j) (Descends-purge retention now js))
]

module _ (known : ℕ → Bool) (limit cap : ℕ) where
  descent : (start : List Job) → Keeps limit cap (Descends start)
  descent start = record {
    update = λ st jobs h. Descends-trans h (Descends-update st jobs);
    insert = λ id user kind params now jobs room h. Descends-trans h (Descends-append jobs _);
    purge = λ retention now jobs h. Descends-trans h (Descends-purge retention now jobs);
  }

  -- Over every history of a valid queue each job is still in its place with its owner, kind and
  -- parameters, or was deleted after it had finished; one that had finished and is still there is
  -- exactly as it was.
  pub run-Descends :
      (jobs : List Job) (ops : List QueueOp)
      → 0 < limit
      → All (IsValid limit) jobs
      → Descends jobs (run known limit cap jobs ops)
  run-Descends jobs ops pos v =
      run-keeps known limit cap (descent jobs) jobs ops pos v (Descends-refl jobs)
