-- ===== src/Checks/Research.antt =====
-- An experiment that is created, run, validated and approved.
use quantumsentinel_web.Prelude.{
  ℕ, ◌+◌, ◌≡◌, ◌≤◌, ◌⊎◌, length, refl, Bool, true, false, none, some, List, [], ◌∷◌, All, ◌==◌,
  first_where, map,
}
use quantumsentinel_web.Prelude.Int.{pos}
use quantumsentinel_web.Experiments.{
  created, Results, Inputs, ResearchExperiment, Library, Execution,
}
use quantumsentinel_web.Experiments.Registry.{
  Step, creates, completes, runs, validates, approves, fresh, step_all, has_id,
}
use quantumsentinel_web.Experiments.Registry.Approval.{Sound, step_all-Sound}
use quantumsentinel_web.Experiments.Registry.Recorded.{Later, step_all-Found}
use quantumsentinel_web.Trials.{ResearchTrial, trial, distinct, missing, record_trials, family_hash}
use quantumsentinel_web.Trials.Counted.{record_trials-counts}

abbrev library : Library
library = record {
  production = true;
  hash_dataset = λ d. d + 1;
  empty_hash = 0;
  hash_parameters = λ p. p + 2;
  sign = λ m. some 5;
  hmac = λ m. 6;
  dsa_verify = λ key m sig. sig == 5;
  key_history = λ id. some 8;
  server_key_id = some 2;
  server_key = some 8;
}

abbrev executable : ℕ → Bool
executable strategy = strategy == 1

abbrev results : Results
results = record {
  has_execution_metrics = true;
  total_pnl = some (pos 10);
  fill_ratio = some (pos 800000);
  total_is_bps = some (pos 3000000);
  oos_sharpe = none;
  survives_deflation = false;
  avg_daily_turnover = none;
  has_position_size = true;
  has_drawdown_limit = false;
}

abbrev inputs : Inputs
inputs = record { dataset_hash = 31; parameter_hash = 42; random_seed = 7 }

abbrev experiment : ResearchExperiment
experiment = fresh record {
  user_id = 3;
  bound = record {
    experiment_id = 9;
    strategy_id = 1;
    strategy_version = 1;
    strategy_hash = 0;
    dataset_id = 4;
    code_commit = 0;
    dependency_lock_hash = 0;
    execution_model = 0;
    latency_model = 0;
  };
  inputs = inputs;
  dataset_json = some 30;
  parameters_json = 40;
  engine_version = 2;
  created_at = 100;
  status = created;
  result_hash = none;
  results_json = results;
  completed_at = none;
  signing_key_id = none;
  manifest_json = none;
  manifest_signature = none;
  gates_passed = none;
  approved_by = none;
  approved_at = none;
}

abbrev execution : Execution
execution = record { executed = true; inputs = inputs; results = results; result_hash = 77 }

abbrev steps : List Step
steps =
    runs 3 9 200 execution
    ∷ completes 3 9 210 results 78
    ∷ validates 3 9 execution
    ∷ approves 3 9 220
    ∷ approves 4 9 230
    ∷ []

-- The owner's approval is refused, that of another user is not.
ends_approved :
    map (λ row. row.approved_by) (step_all library executable steps (experiment ∷ [])) ≡ some 4 ∷ []
unfolding step_all
ends_approved = refl

step_all-Sound_example :
    All (Sound library executable) (step_all library executable (creates experiment ∷ steps) [])
step_all-Sound_example = step_all-Sound library executable (creates experiment ∷ steps) [] tt

step_all-Found_example :
    (new : ResearchExperiment) × (first_where
        (has_id 9)
        (step_all library executable steps (experiment ∷ []))
      ≡ some new)
    × Later experiment new
unfolding first_where
step_all-Found_example = step_all-Found library executable steps 9 experiment (experiment ∷ []) refl

abbrev digest : ℕ → ℕ
digest config = config + 100

abbrev configs : List ℕ
configs = 1 ∷ 2 ∷ 1 ∷ 3 ∷ 4 ∷ []

-- Another request of the user records one of the configurations in each of the attempts.
abbrev others : List (List (List ResearchTrial))
others =
    ((trial 3 9 1 101 ∷ []) ∷ [])
    ∷ ((trial 3 9 1 102 ∷ []) ∷ [])
    ∷ ((trial 3 9 1 103 ∷ []) ∷ [])
    ∷ []

last_is_lost : (record_trials digest 3 9 configs 2 others []).1 ≡ 3
unfolding record_trials
last_is_lost = refl

alone_all_count : (record_trials digest 3 9 configs 2 ([] ∷ [] ∷ [] ∷ []) []).1 ≡ 4
unfolding record_trials
alone_all_count = refl

same_assets_same_family : family_hash (λ s names. s + length names) (λ a. a) 5 (2 ∷ 1 ∷ 2 ∷ []) ≡ 7
unfolding family_hash
same_assets_same_family = refl

record_trials-counts_example :
    (length (distinct (map digest configs)) ≤ (record_trials digest 3 9 configs 2 others []).1)
    ⊎ (length (
            missing 3 9
              (distinct (map digest configs))
              (record_trials digest 3 9 configs 2 others []).0)
          + length others
        ≤ length (missing 3 9 (distinct (map digest configs)) []))
record_trials-counts_example = record_trials-counts digest 3 9 configs 2 others []
