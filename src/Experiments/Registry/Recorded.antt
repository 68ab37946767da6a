-- ===== src/Experiments/Registry/Recorded.antt =====
-- What stays of an experiment once it is there, and once its results are.
use quantumsentinel_web.Prelude.{
  ℕ, ◌≡◌, ◌≢◌, refl, subst, sym, arith, Bool, true, false, not, ◌==◌, if◌then◌else◌, Option, none,
  some, List, [], ◌∷◌, update_where, first_where, if_both, Bool-cases, Option-cases, inl, inr,
  count_where,
}
use quantumsentinel_web.Prelude.First.{
  first_where-append, first_where-update, first_where-update_other, first_where-satisfies,
}
use quantumsentinel_web.Experiments.{
  completed, validated, Results, ResearchExperiment, Library, build_manifest, sign_manifest,
  same_inputs, Execution, passes_gates,
}
use quantumsentinel_web.Experiments.Registry.{
  Outcome, is_created, is_completed, is_validated, has_id, Rows, is_owned, written, on_row,
  with_results, record_results, run_row, complete_row, validate_row, approve_row, Step, creates,
  completes, runs, validates, approves, fresh, step, step_all,
}

-- The owner and the inputs are kept, and once there are results they and their manifest are too.
abbrev pub Later : ResearchExperiment → ResearchExperiment → Type 0
Later row new =
    ((row.user_id ≡ new.user_id)
      × (row.bound ≡ new.bound)
      × (row.inputs ≡ new.inputs)
      × (row.dataset_json ≡ new.dataset_json)
      × (row.parameters_json ≡ new.parameters_json))
    × (is_created row.status ≡ false
        → (is_created new.status ≡ false)
          × (row.results_json ≡ new.results_json)
          × (row.result_hash ≡ new.result_hash)
          × (row.manifest_json ≡ new.manifest_json)
          × (row.manifest_signature ≡ new.manifest_signature))

Later-refl : (row : ResearchExperiment) → Later row row
Later-refl row = ((refl, refl, refl, refl, refl), λ h. (h, refl, refl, refl, refl))

Later-trans : (a b c : ResearchExperiment) → Later a b → Later b c → Later a c
Later-trans a b c h k = (
  (
    ground (arith, h.0, k.0),
    ground (arith, h.0, k.0),
    ground (arith, h.0, k.0),
    ground (arith, h.0, k.0),
    ground (arith, h.0, k.0),
  ),
  λ e. let x = h.1 e in let y = k.1 x.0 in ground (arith, x, y),
)

Moves : ResearchExperiment → Option ResearchExperiment × Outcome → Type 0
Moves row r = (new : ResearchExperiment) → r.0 ≡ some new → Later row new

module _ (lib : Library) (executable : ℕ → Bool) where
  record-Moves :
      (now : ℕ) (results : Results) (result_hash : ℕ) (row : ResearchExperiment)
      → is_created row.status ≡ true
      → Moves row (record_results lib executable now results result_hash row)
  unfolding Moves record_results
  record-Moves now results result_hash row c =
      let new = with_results lib executable now results result_hash row in
      elim (Option-cases (sign_manifest lib (build_manifest new))) [
        | inl e ↦ rw e (λ n h. absurd (ground arith))
        | inr (sig, e) ↦ rw e (λ n h.
            subst (Later row) (injective _ n h)
              ((refl, refl, refl, refl, refl), λ d. absurd (ground (arith, c, d))))
      ]
    where
      injective : (m n : ResearchExperiment) → some m ≡ some n → m ≡ n
      injective m n h = cc

  run-Moves :
      (now : ℕ) (execution : Execution) (row : ResearchExperiment)
      → Moves row (run_row lib executable now execution row)
  unfolding Moves run_row
  run-Moves now execution row =
      if_both (Moves row) (not (is_created row.status)) (λ a n h. absurd (ground arith))
        (λ a.
          if_both (Moves row) (not (same_inputs execution.inputs row.inputs))
            (λ b n h. absurd (ground arith))
            (λ b. record-Moves now execution.results execution.result_hash row (ground (arith, a))))

  complete-Moves :
      (now : ℕ) (results : Results) (result_hash : ℕ) (row : ResearchExperiment)
      → Moves row (complete_row lib executable now results result_hash row)
  unfolding Moves complete_row
  complete-Moves now results result_hash row =
      if_both (Moves row) (not (is_created row.status)) (λ a n h. absurd (ground arith))
        (λ a. record-Moves now results result_hash row (ground (arith, a)))

  validate-Moves :
      (execution : Execution) (row : ResearchExperiment)
      → Moves row (validate_row lib executable execution row)
  unfolding Moves validate_row is_created
  validate-Moves execution row =
      if_both (Moves row) (not (is_completed row.status)) (λ a n h. absurd (ground arith))
        (λ a n h. subst (Later row) (injective _ n h) (
          (refl, refl, refl, refl, refl),
          λ d. (status (passes_gates lib executable row execution), refl, refl, refl, refl),
        ))
    where
      injective : (m n : ResearchExperiment) → some m ≡ some n → m ≡ n
      injective m n h = cc

      status : (b : Bool) → is_created (if b then validated else completed) ≡ false
      status true = refl
      status false = refl

  approve-Moves :
      (now approver : ℕ) (row : ResearchExperiment) → Moves row (approve_row now approver row)
  unfolding Moves approve_row is_created
  approve-Moves now approver row =
      if_both (Moves row) (row.user_id == approver) (λ a n h. absurd (ground arith))
        (λ a.
          if_both (Moves row) (not (is_validated row.status)) (λ b n h. absurd (ground arith))
            (λ b n h.
              subst (Later row) (injective _ n h)
                ((refl, refl, refl, refl, refl), λ d. (refl, refl, refl, refl, refl))))
    where
      injective : (m n : ResearchExperiment) → some m ≡ some n → m ≡ n
      injective m n h = cc

  -- The row with an id after a step.
  abbrev Found : ℕ → ResearchExperiment → Rows → Type 0
  Found id row rows =
      (new : ResearchExperiment) × (first_where (has_id id) rows ≡ some new) × Later row new

  found_some :
      (id : ℕ) (row : ResearchExperiment) (rows : Rows)
      → first_where (has_id id) rows ≡ some row
      → count_where (has_id id) rows ≢ 0
  unfolding first_where count_where
  found_some id row [] e z = absurd (ground arith)
  found_some id row (x ∷ rows) e z = ground (arith, found_some id row rows)

  write-Found :
      (j id : ℕ) (row : ResearchExperiment) (rows : Rows) (changed : Option ResearchExperiment)
      (at_id : ResearchExperiment)
      → first_where (has_id id) rows ≡ some row
      → first_where (has_id j) rows ≡ some at_id
      → ((new : ResearchExperiment) → changed ≡ some new → Later at_id new)
      → Found id row (written j rows changed)
  write-Found j id row rows none at_id e f k = (row, e, Later-refl row)
  write-Found j id row rows (some new) at_id e f k = elim (Bool-cases (j == id)) [
    | inl same ↦
        let equal : j ≡ id = ground (arith, same) in
        let later = k new refl in
        let found = subst (λ i. first_where (has_id i) rows ≡ some at_id) equal f in
        let row_is : at_id ≡ row = ground (arith, found, e) in
        let has : has_id id new ≡ true =
          ground (arith, first_where-satisfies (has_id id) at_id rows found, later.0) in
        let at : first_where (has_id id) (update_where (has_id id) (λ r. new) rows) ≡ some new =
          first_where-update (has_id id) new rows (found_some id row rows e) has in
        subst (λ i. Found id row (update_where (has_id i) (λ r. new) rows)) (sym equal)
          (new, at, subst (λ r. Later r new) row_is later)
    | inr other ↦
        let later = k new refl in
        let not_id : has_id id new ≡ false =
          ground (arith, other, first_where-satisfies (has_id j) at_id rows f, later.0) in
        (
          row,
          first_where-update_other (has_id id) (has_id j) row new rows
              (λ x h. ground (arith, other, h)) not_id e,
          Later-refl row,
        )
  ]

  on_row-Found :
      (f : ResearchExperiment → Option ResearchExperiment × Outcome) (j id : ℕ) (user : Option ℕ)
      (row : ResearchExperiment) (rows : Rows)
      → ((r : ResearchExperiment) → Moves r (f r))
      → first_where (has_id id) rows ≡ some row
      → Found id row (on_row f j user rows (first_where (has_id j) rows)).0
  unfolding on_row Moves
  on_row-Found f j id user row rows k e = elim (Option-cases (first_where (has_id j) rows)) [
    | inl n ↦ rw n (row, e, Later-refl row)
    | inr (at_id, s) ↦ rw s (
        if_both (λ (r : Rows × Outcome). Found id row r.0) (is_owned user at_id)
          (λ o. write-Found j id row rows (f at_id).0 at_id e s (k at_id))
          (λ o. (row, e, Later-refl row)))
  ]

  step-Found :
      (s : Step) (id : ℕ) (row : ResearchExperiment) (rows : Rows)
      → first_where (has_id id) rows ≡ some row
      → Found id row (step lib executable s rows)
  unfolding step
  step-Found (creates new) id row rows e =
      if_both (Found id row) (count_where (has_id new.bound.experiment_id) rows == 0)
        (λ c. (row, first_where-append (has_id id) row rows (fresh new ∷ []) e, Later-refl row))
        (λ c. (row, e, Later-refl row))
  step-Found (completes user j now results result_hash) id row rows e =
      on_row-Found (complete_row lib executable now results result_hash) j id (some user) row rows
        (complete-Moves now results result_hash) e
  step-Found (runs user j now execution) id row rows e =
      on_row-Found (run_row lib executable now execution) j id (some user) row rows
        (run-Moves now execution) e
  step-Found (validates user j execution) id row rows e =
      on_row-Found (validate_row lib executable execution) j id (some user) row rows
        (validate-Moves execution) e
  step-Found (approves approver j now) id row rows e =
      on_row-Found (approve_row now approver) j id none row rows (approve-Moves now approver) e

-- In every history an experiment that is there stays there with its owner and its inputs, and once its
-- results are recorded they, their hash and the signed manifest stay as they are.
pub step_all-Found :
    (lib : Library) (executable : ℕ → Bool) (steps : List Step) (id : ℕ) (row : ResearchExperiment)
    (rows : Rows)
    → first_where (has_id id) rows ≡ some row
    → (new : ResearchExperiment) × (first_where (has_id id) (step_all lib executable steps rows)
        ≡ some new)
      × Later row new
unfolding step_all
step_all-Found lib executable [] id row rows e = (row, e, Later-refl row)
step_all-Found lib executable (s ∷ steps) id row rows e =
    let (next, found, moved) = step-Found lib executable s id row rows e in
    let (new, at_end, later) =
      step_all-Found lib executable steps id next (step lib executable s rows) found in
    (new, at_end, Later-trans row next new moved later)
