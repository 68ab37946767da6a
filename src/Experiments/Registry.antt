-- ===== src/Experiments/Registry.antt =====
-- The operations of the registry (backend/services/experiment_registry.py:
-- PersistentExperimentRegistry, the finalizers, approve_experiment).
pub mod Approval
pub mod Recorded
use quantumsentinel_web.Prelude.{
  ℕ, Bool, true, false, not, ◌&&◌, ◌||◌, ltb, leb, ◌==◌, if◌then◌else◌, Option, none, some, List,
  [], ◌∷◌, ◌++◌, first_where, update_where, count_where,
}
use quantumsentinel_web.Prelude.Int.{ℤ, pos, ltb_ℤ}
use quantumsentinel_web.Experiments.{
  ExperimentStatus, created, running, completed, failed, validated, approved, Results, Manifest,
  Signature, ResearchExperiment, Library, is_given, build_manifest, sign_manifest, same_inputs,
  Execution, passes_gates,
}

-- The HTTP status of an error.
pub data Outcome : Type 0 where
  done : Outcome
  refused : ℕ → Outcome
  signing_failed : Outcome

unfoldable pub is_created : ExperimentStatus → Bool
is_created created = true
is_created _ = false

unfoldable pub is_completed : ExperimentStatus → Bool
is_completed completed = true
is_completed validated = true
is_completed _ = false

unfoldable pub is_validated : ExperimentStatus → Bool
is_validated validated = true
is_validated _ = false

abbrev pub has_id : ℕ → ResearchExperiment → Bool
has_id id row = row.bound.experiment_id == id

abbrev pub Rows : Type 0
Rows = List ResearchExperiment

abbrev pub is_owned : Option ℕ → ResearchExperiment → Bool
is_owned none row = true
is_owned (some user) row = row.user_id == user

abbrev pub written : ℕ → Rows → Option ResearchExperiment → Rows
written id rows none = rows
written id rows (some new) = update_where (has_id id) (λ r. new) rows

-- An operation on the row with an id, of a user where one is given.
unfoldable pub on_row :
    (ResearchExperiment → Option ResearchExperiment × Outcome)
    → ℕ
    → Option ℕ
    → Rows
    → Option ResearchExperiment
    → Rows × Outcome
unfolding update_where
on_row f id user rows none = (rows, refused 404)
on_row f id user rows (some row) =
    let r = f row in if is_owned user row then (written id rows r.0, r.1) else (rows, refused 404)

module _ (lib : Library) (executable : ℕ → Bool) where
  abbrev pub with_results : ℕ → Results → ℕ → ResearchExperiment → ResearchExperiment
  with_results now results result_hash row = record row {
    results_json = results;
    result_hash = some result_hash;
    completed_at = some now;
    status = completed;
    signing_key_id = lib.server_key_id;
  }

  abbrev signed_row : ResearchExperiment → Option Signature → Option ResearchExperiment × Outcome
  signed_row row none = (none, signing_failed)
  signed_row row (some sig) = (
    some record row { manifest_json = some (build_manifest row); manifest_signature = some sig },
    done,
  )

  -- _record, signed
  unfoldable pub record_results :
      ℕ → Results → ℕ → ResearchExperiment → Option ResearchExperiment × Outcome
  unfolding sign_manifest build_manifest
  record_results now results result_hash row =
      let new = with_results now results result_hash row in
      signed_row new (sign_manifest lib (build_manifest new))

  unfoldable pub run_row : ℕ → Execution → ResearchExperiment → Option ResearchExperiment × Outcome
  unfolding record_results is_created
  run_row now execution row =
      let recorded = record_results now execution.results execution.result_hash row in
      if not (is_created row.status)
      then (none, refused 422)
      else if not (same_inputs execution.inputs row.inputs)
      then (none, refused 409)
      else recorded

  -- complete, signed; `result_hash` is that of the results
  unfoldable pub complete_row :
      ℕ → Results → ℕ → ResearchExperiment → Option ResearchExperiment × Outcome
  unfolding record_results is_created
  complete_row now results result_hash row =
      let recorded = record_results now results result_hash row in
      if not (is_created row.status) then (none, refused 422) else recorded

  unfoldable pub validate_row : Execution → ResearchExperiment → Option ResearchExperiment × Outcome
  unfolding passes_gates is_completed
  validate_row execution row =
      let passed = passes_gates lib executable row execution in
      if not (is_completed row.status) then (none, refused 409) else (
        some record row {
          gates_passed = some passed;
          status = if passed then validated else completed;
        },
        done,
      )

-- approve_experiment
unfoldable pub approve_row : ℕ → ℕ → ResearchExperiment → Option ResearchExperiment × Outcome
unfolding is_validated
approve_row now approver row =
    if row.user_id == approver
    then (none, refused 422)
    else if not (is_validated row.status)
    then (none, refused 422)
    else (
      some record row { status = approved; approved_by = some approver; approved_at = some now },
      done,
    )

-- What the API and the workers do, in the order of their commits; a new row has a new id.
pub data Step : Type 0 where
  creates : ResearchExperiment → Step
  completes : ℕ → ℕ → ℕ → Results → ℕ → Step
  runs : ℕ → ℕ → ℕ → Execution → Step
  validates : ℕ → ℕ → Execution → Step
  approves : ℕ → ℕ → ℕ → Step

abbrev no_results : Results
no_results = record {
  has_execution_metrics = false;
  total_pnl = none;
  fill_ratio = none;
  total_is_bps = none;
  oos_sharpe = none;
  survives_deflation = false;
  avg_daily_turnover = none;
  has_position_size = false;
  has_drawdown_limit = false;
}

-- create: what the caller does not give is empty.
abbrev pub fresh : ResearchExperiment → ResearchExperiment
fresh row = record row {
  status = created;
  result_hash = none;
  results_json = no_results;
  completed_at = none;
  signing_key_id = none;
  manifest_json = none;
  manifest_signature = none;
  gates_passed = none;
  approved_by = none;
  approved_at = none;
}

module _ (lib : Library) (executable : ℕ → Bool) where
  unfoldable pub step : Step → Rows → Rows
  unfolding on_row complete_row run_row validate_row approve_row first_where count_where
  step (creates row) rows =
      if count_where (has_id row.bound.experiment_id) rows == 0
      then rows ++ fresh row ∷ []
      else rows
  step (completes user id now results result_hash) rows =
      (on_row (complete_row lib executable now results result_hash) id (some user) rows
        (first_where (has_id id) rows)).0
  step (runs user id now execution) rows =
      (on_row (run_row lib executable now execution) id (some user) rows
        (first_where (has_id id) rows)).0
  step (validates user id execution) rows =
      (on_row (validate_row lib executable execution) id (some user) rows
        (first_where (has_id id) rows)).0
  step (approves approver id now) rows =
      (on_row (approve_row now approver) id none rows (first_where (has_id id) rows)).0

  unfoldable pub step_all : List Step → Rows → Rows
  unfolding step
  step_all [] rows = rows
  step_all (s ∷ steps) rows = step_all steps (step s rows)
