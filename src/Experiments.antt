-- ===== src/Experiments.antt =====
-- The registry of research experiments (backend/services/experiment_registry.py: manifests and their
-- signatures, the gates, PersistentExperimentRegistry, the finalizers and approve_experiment). Text and
-- JSON values are numbers; a result's figures are whole millionths. A row that an operation locks is
-- read and written in one step; `complete`, which takes no lock, is modelled so too.
pub mod Registry
use quantumsentinel_web.Prelude.{
  ℕ, Bool, true, false, not, ◌&&◌, ◌||◌, ltb, leb, ◌==◌, if◌then◌else◌, Option, none, some, List,
  [], ◌∷◌, ◌++◌, first_where, update_where,
}
use quantumsentinel_web.Prelude.Int.{ℤ, pos, ltb_ℤ}

pub data ExperimentStatus : Type 0 where
  created running completed failed validated approved : ExperimentStatus

-- The values of a results object that the gates read; `none` is a missing key.
pub record Results : Type 0 where
  pub has_execution_metrics : Bool
  pub total_pnl : Option ℤ
  pub fill_ratio : Option ℤ
  pub total_is_bps : Option ℤ
  pub oos_sharpe : Option ℤ
  pub survives_deflation : Bool
  pub avg_daily_turnover : Option ℤ
  pub has_position_size : Bool
  pub has_drawdown_limit : Bool

-- _MANIFEST_BOUND_FIELDS, less the three that replay compares; "" is `none`.
pub record Bound : Type 0 where
  pub experiment_id : ℕ
  pub strategy_id : ℕ
  pub strategy_version : ℕ
  pub strategy_hash : ℕ
  pub dataset_id : ℕ
  pub code_commit : ℕ
  pub dependency_lock_hash : ℕ
  pub execution_model : ℕ
  pub latency_model : ℕ

-- _recorded_inputs
pub record Inputs : Type 0 where
  pub dataset_hash : ℕ
  pub parameter_hash : ℕ
  pub random_seed : ℕ

pub record Manifest : Type 0 where
  pub bound : Bound
  pub inputs : Inputs
  pub result_hash : Option ℕ
  pub engine_version : ℕ
  pub created_at : ℕ
  pub completed_at : Option ℕ
  pub signing_key_id : Option ℕ

-- "ml-dsa:..." and "hmac-sha256:..."
pub data Signature : Type 0 where
  ml_dsa : ℕ → Signature
  hmac_sha256 : ℕ → Signature

-- A row of research_experiments; `gates_passed` is all_gates_passed of the stored report.
pub record ResearchExperiment : Type 0 where
  pub user_id : ℕ
  pub bound : Bound
  pub inputs : Inputs
  pub dataset_json : Option ℕ
  pub parameters_json : ℕ
  pub engine_version : ℕ
  pub created_at : ℕ
  pub status : ExperimentStatus
  pub result_hash : Option ℕ
  pub results_json : Results
  pub completed_at : Option ℕ
  pub signing_key_id : Option ℕ
  pub manifest_json : Option Manifest
  pub manifest_signature : Option Signature
  pub gates_passed : Option Bool
  pub approved_by : Option ℕ
  pub approved_at : Option ℕ

-- The libraries: hashes, ML-DSA (`none` where signing raises), HMAC with the deployment's secret, and
-- the server's keys.
pub record Library : Type 0 where
  pub production : Bool
  pub hash_dataset : ℕ → ℕ
  pub empty_hash : ℕ
  pub hash_parameters : ℕ → ℕ
  pub sign : Manifest → Option ℕ
  pub hmac : Manifest → ℕ
  pub dsa_verify : ℕ → Manifest → ℕ → Bool
  pub key_history : ℕ → Option ℕ
  pub server_key_id : Option ℕ
  pub server_key : Option ℕ

abbrev above : ℤ → Option ℤ → Bool
above threshold none = false
above threshold (some value) = ltb_ℤ threshold value

abbrev at_least : ℤ → Option ℤ → Bool
at_least threshold none = false
at_least threshold (some value) = not (ltb_ℤ value threshold)

abbrev at_most : ℤ → Option ℤ → Bool
at_most threshold none = false
at_most threshold (some value) = not (ltb_ℤ threshold value)

-- A missing turnover counts as 1.0.
abbrev below : ℤ → Option ℤ → Bool
below threshold none = true
below threshold (some value) = ltb_ℤ value threshold

abbrev pub is_given {ℓ} : {A : Type ℓ} → Option A → Bool
is_given none = false
is_given (some a) = true

-- Whether every gate of validate_for_deployment passes.
unfoldable pub validate_for_deployment : Results → Option Signature → Bool
validate_for_deployment r signature =
    (if r.has_execution_metrics
      then above (pos 0) r.total_pnl
        && (at_least (pos 500000) r.fill_ratio && at_most (pos 25000000) r.total_is_bps)
      else above (pos 500000) r.oos_sharpe
        && (r.survives_deflation && below (pos 2000000) r.avg_daily_turnover))
    && ((r.has_position_size || r.has_drawdown_limit) && is_given signature)

unfoldable pub build_manifest : ResearchExperiment → Manifest
build_manifest row = record {
  bound = row.bound;
  inputs = row.inputs;
  result_hash = row.result_hash;
  engine_version = row.engine_version;
  created_at = row.created_at;
  completed_at = row.completed_at;
  signing_key_id = row.signing_key_id;
}

module _ (lib : Library) where
  abbrev signed_or_hmac : Manifest → Option ℕ → Option Signature
  signed_or_hmac m (some sig) = some (ml_dsa sig)
  signed_or_hmac m none = if lib.production then none else some (hmac_sha256 (lib.hmac m))

  -- `none` is a ManifestSigningError.
  unfoldable pub sign_manifest : Manifest → Option Signature
  sign_manifest m = signed_or_hmac m (lib.sign m)

  abbrev is_current : ℕ → Option ℕ → Bool
  is_current key_id none = false
  is_current key_id (some current) = current == key_id

  abbrev historical : ℕ → Option ℕ → Option ℕ
  historical key_id (some key) = some key
  historical key_id none = if is_current key_id lib.server_key_id then lib.server_key else none

  -- _manifest_public_key, with a database
  unfoldable pub manifest_public_key : Option ℕ → Option ℕ
  manifest_public_key none = lib.server_key
  manifest_public_key (some key_id) = historical key_id (lib.key_history key_id)

  abbrev verified_with : Manifest → ℕ → Option ℕ → Bool
  verified_with m sig none = false
  verified_with m sig (some key) = lib.dsa_verify key m sig

  unfoldable pub verify_manifest_signature : Manifest → Option Signature → Bool
  unfolding manifest_public_key
  verify_manifest_signature m none = false
  verify_manifest_signature m (some (hmac_sha256 sig)) = not lib.production && sig == lib.hmac m
  verify_manifest_signature m (some (ml_dsa sig)) =
      verified_with m sig (manifest_public_key m.signing_key_id)

abbrev same_option : Option ℕ → Option ℕ → Bool
same_option none none = true
same_option (some m) (some n) = m == n
same_option _ _ = false

abbrev pub same_inputs : Inputs → Inputs → Bool
same_inputs a b =
    a.dataset_hash == b.dataset_hash
    && (a.parameter_hash == b.parameter_hash && a.random_seed == b.random_seed)

abbrev pub same_bound : Bound → Bound → Bool
same_bound a b =
    (a.experiment_id == b.experiment_id
      && (a.strategy_id == b.strategy_id && a.strategy_version == b.strategy_version))
    && ((a.strategy_hash == b.strategy_hash
          && (a.dataset_id == b.dataset_id && a.code_commit == b.code_commit))
        && (a.dependency_lock_hash == b.dependency_lock_hash
            && (a.execution_model == b.execution_model && a.latency_model == b.latency_model)))

-- The fields of the manifest are those of the row.
unfoldable pub is_consistent : Manifest → ResearchExperiment → Bool
is_consistent m row =
    same_bound m.bound row.bound
    && (same_inputs m.inputs row.inputs && same_option m.result_hash row.result_hash)

abbrev hash_or_empty : Library → Option ℕ → ℕ
hash_or_empty lib none = lib.empty_hash
hash_or_empty lib (some dataset) = lib.hash_dataset dataset

unfoldable pub inputs_unchanged : Library → ResearchExperiment → Bool
inputs_unchanged lib row =
    hash_or_empty lib row.dataset_json == row.inputs.dataset_hash
    && lib.hash_parameters row.parameters_json == row.inputs.parameter_hash

-- What a job executed.
pub record Execution : Type 0 where
  pub executed : Bool
  pub inputs : Inputs
  pub results : Results
  pub result_hash : ℕ

-- `executable` is EXECUTABLE_STRATEGY_IDS.
unfoldable pub reproduced : (ℕ → Bool) → ResearchExperiment → Execution → Bool
reproduced executable row execution =
    (execution.executed && (executable row.bound.strategy_id && is_given row.result_hash))
    && (same_inputs execution.inputs row.inputs
        && same_option (some execution.result_hash) row.result_hash)

-- signature_valid and manifest_consistent of _manifest_view.
unfoldable pub manifest_holds : Library → ResearchExperiment → Option Manifest → Bool
unfolding verify_manifest_signature is_consistent
manifest_holds lib row none = false
manifest_holds lib row (some m) =
    verify_manifest_signature lib m row.manifest_signature && is_consistent m row

-- all_gates_passed of _validate_row
unfoldable pub passes_gates : Library → (ℕ → Bool) → ResearchExperiment → Execution → Bool
unfolding validate_for_deployment manifest_holds inputs_unchanged reproduced
passes_gates lib executable row execution =
    (validate_for_deployment row.results_json row.manifest_signature
      && manifest_holds lib row row.manifest_json)
    && (inputs_unchanged lib row && reproduced executable row execution)
