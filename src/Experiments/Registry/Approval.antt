-- ===== src/Experiments/Registry/Approval.antt =====
-- What an approved experiment has behind it.
use quantumsentinel_web.Prelude.{
  ℕ, ◌≡◌, ◌≢◌, refl, subst, arith, Bool, true, false, not, ◌&&◌, ◌==◌, if◌then◌else◌, Option, none,
  some, List, [], ◌∷◌, All, All-append, All-update_where, first_where, if_both, Bool-cases,
  Option-cases, inl, inr, ◌⊎◌, count_where,
}
use quantumsentinel_web.Experiments.{
  ExperimentStatus, created, running, completed, failed, validated, approved, Results,
  ResearchExperiment, Library, build_manifest, sign_manifest, same_inputs, Execution, passes_gates,
  validate_for_deployment, manifest_holds, inputs_unchanged, reproduced,
}
use quantumsentinel_web.Experiments.Registry.{
  Outcome, is_created, is_completed, is_validated, has_id, Rows, is_owned, written, on_row,
  with_results, record_results, run_row, complete_row, validate_row, approve_row, Step, creates,
  completes, runs, validates, approves, fresh, step, step_all,
}

both : (a b : Bool) → (a && b) ≡ true → (a ≡ true) × (b ≡ true)
both true true h = (refl, refl)
both true false h = absurd (ground arith)
both false b h = absurd (ground arith)

module _ (lib : Library) (executable : ℕ → Bool) where
  -- The gates hold of the row as it stands.
  abbrev pub Holds : ResearchExperiment → Type 0
  Holds row =
      (validate_for_deployment row.results_json row.manifest_signature ≡ true)
      × (manifest_holds lib row row.manifest_json ≡ true)
      × (inputs_unchanged lib row ≡ true)
      × (executable row.bound.strategy_id ≡ true)

  -- A validated row passes the gates; an approved one too, and another user has approved it.
  abbrev pub Sound : ResearchExperiment → Type 0
  Sound row =
      (row.status ≡ validated → Holds row)
      × (row.status ≡ approved
          → Holds row × ((by : ℕ) × (row.approved_by ≡ some by) × (by ≢ row.user_id)))

  gates-Holds :
      (row : ResearchExperiment) (execution : Execution)
      → passes_gates lib executable row execution ≡ true
      → Holds row
  unfolding passes_gates reproduced
  gates-Holds row execution e =
      let (deployable, integral) = both _ _ e in
      let (passes, manifest) = both _ _ deployable in
      let (unchanged, replayed) = both _ _ integral in
      let (ran, equal) = both _ _ replayed in
      let (executed, known) = both _ _ ran in
      let (allowed, given) = both _ _ known in (passes, manifest, unchanged, allowed)

  some_injective : (m n : ResearchExperiment) → some m ≡ some n → m ≡ n
  some_injective m n h = cc

  Keeps : Option ResearchExperiment × Outcome → Type 0
  Keeps r = (new : ResearchExperiment) → r.0 ≡ some new → Sound new

  record-Keeps :
      (now : ℕ) (results : Results) (result_hash : ℕ) (row : ResearchExperiment)
      → Keeps (record_results lib executable now results result_hash row)
  unfolding Keeps record_results
  record-Keeps now results result_hash row =
      let new = with_results lib executable now results result_hash row in
      elim (Option-cases (sign_manifest lib (build_manifest new))) [
        | inl e ↦ rw e (λ n h. absurd (ground arith))
        | inr (sig, e) ↦ rw e (λ n h. ground (arith, h))
      ]

  run-Keeps :
      (now : ℕ) (execution : Execution) (row : ResearchExperiment)
      → Keeps (run_row lib executable now execution row)
  unfolding Keeps run_row
  run-Keeps now execution row =
      if_both Keeps (not (is_created row.status)) (λ a n h. absurd (ground arith))
        (λ a.
          if_both Keeps (not (same_inputs execution.inputs row.inputs))
            (λ b n h. absurd (ground arith))
            (λ b. record-Keeps now execution.results execution.result_hash row))

  complete-Keeps :
      (now : ℕ) (results : Results) (result_hash : ℕ) (row : ResearchExperiment)
      → Keeps (complete_row lib executable now results result_hash row)
  unfolding Keeps complete_row
  complete-Keeps now results result_hash row =
      if_both Keeps (not (is_created row.status)) (λ a n h. absurd (ground arith))
        (λ a. record-Keeps now results result_hash row)

  passed-Sound :
      (row : ResearchExperiment) (execution : Execution) (passed : Bool)
      → passes_gates lib executable row execution ≡ passed
      → Sound record row {
        gates_passed = some passed;
        status = if passed then validated else completed;
      }
  unfolding manifest_holds inputs_unchanged
  passed-Sound row execution true e =
      ((λ h. gates-Holds row execution e), λ h. absurd (ground arith))
  passed-Sound row execution false e = ((λ h. absurd (ground arith)), λ h. absurd (ground arith))

  validate-Keeps :
      (execution : Execution) (row : ResearchExperiment)
      → Keeps (validate_row lib executable execution row)
  unfolding Keeps validate_row
  validate-Keeps execution row =
      let passed = passes_gates lib executable row execution in
      if_both Keeps (not (is_completed row.status)) (λ a n h. absurd (ground arith))
        (λ a n h. same_row (passed-Sound row execution passed refl) h)
    where
      same_row : {m n : ResearchExperiment} → Sound m → some m ≡ some n → Sound n
      same_row {m} {n} s h = subst Sound (some_injective m n h) s

  approve-Keeps :
      (now approver : ℕ) (row : ResearchExperiment)
      → Sound row
      → Keeps (approve_row now approver row)
  unfolding Keeps approve_row manifest_holds inputs_unchanged
  approve-Keeps now approver row s =
      if_both Keeps (row.user_id == approver) (λ a n h. absurd (ground arith))
        (λ a.
          if_both Keeps (not (is_validated row.status)) (λ b n h. absurd (ground arith))
            (λ b n h.
              subst Sound (some_injective _ n h)
                (approved_row a (was_validated row.status refl b))))
    where
      was_validated :
          (status : ExperimentStatus)
          → row.status ≡ status
          → not (is_validated status) ≡ false
          → row.status ≡ validated
      was_validated created e b = absurd (ground arith)
      was_validated running e b = absurd (ground arith)
      was_validated completed e b = absurd (ground arith)
      was_validated failed e b = absurd (ground arith)
      was_validated validated e b = e
      was_validated approved e b = absurd (ground arith)

      approved_row :
          (row.user_id == approver) ≡ false
          → row.status ≡ validated
          → Sound
              record row { status = approved; approved_by = some approver; approved_at = some now }
      approved_row a e = (
        (λ h. absurd (ground arith)),
        λ h. (s.0 e, (approver, refl, λ same. absurd (ground arith))),
      )

  found-Sound :
      (p : ResearchExperiment → Bool) (row : ResearchExperiment) (rows : Rows)
      → All Sound rows
      → first_where p rows ≡ some row
      → Sound row
  unfolding first_where
  found-Sound p row [] a e = absurd (ground arith)
  found-Sound p row (x ∷ rows) a e = elim (Bool-cases (p x)) [
    | inl b ↦ subst Sound (some_injective x row (rw b at e)) a.0
    | inr b ↦ found-Sound p row rows a.1 (rw b at e)
  ]

  on_row-Sound :
      (f : ResearchExperiment → Option ResearchExperiment × Outcome) (id : ℕ) (user : Option ℕ)
      (rows : Rows)
      → ((row : ResearchExperiment) → Sound row → Keeps (f row))
      → All Sound rows
      → All Sound (on_row f id user rows (first_where (has_id id) rows)).0
  unfolding on_row Keeps
  on_row-Sound f id user rows k a = elim (Option-cases (first_where (has_id id) rows)) [
    | inl e ↦ rw e a
    | inr (row, e) ↦
        let kept = k row (found-Sound (has_id id) row rows a e) in
        rw e (
          if_both (λ (r : Rows × Outcome). All Sound r.0) (is_owned user row)
            (λ o. write (Option-cases (f row).0) kept) (λ o. a))
  ]
    where
      write :
          {row : ResearchExperiment}
          → ((f row).0 ≡ none) ⊎ ((new : ResearchExperiment) × ((f row).0 ≡ some new))
          → ((new : ResearchExperiment) → (f row).0 ≡ some new → Sound new)
          → All Sound (written id rows (f row).0)
      write (inl e) kept = rw e a
      write (inr (new, e)) kept =
          rw e (All-update_where Sound (has_id id) (λ r. new) (λ r h s. kept new e) rows a)

  step-Sound : (s : Step) (rows : Rows) → All Sound rows → All Sound (step lib executable s rows)
  unfolding step
  step-Sound (creates row) rows a =
      if_both (All Sound) (count_where (has_id row.bound.experiment_id) rows == 0)
        (λ e.
          All-append Sound rows (fresh row ∷ []) a
            (((λ h. absurd (ground arith)), λ h. absurd (ground arith)), tt))
        (λ e. a)
  step-Sound (completes user id now results result_hash) rows a =
      on_row-Sound (complete_row lib executable now results result_hash) id (some user) rows
        (λ row s. complete-Keeps now results result_hash row) a
  step-Sound (runs user id now execution) rows a =
      on_row-Sound (run_row lib executable now execution) id (some user) rows
        (λ row s. run-Keeps now execution row) a
  step-Sound (validates user id execution) rows a =
      on_row-Sound (validate_row lib executable execution) id (some user) rows
        (λ row s. validate-Keeps execution row) a
  step-Sound (approves approver id now) rows a =
      on_row-Sound (approve_row now approver) id none rows
        (λ row s. approve-Keeps now approver row s) a

-- From rows of which this holds, in every history of the registry each validated experiment passes
-- its gates as it stands: its results the deployment gates, its manifest the check of its signature
-- and of its fields, its inputs that of their hashes, and its strategy can be executed; and each
-- approved one too, by a user other than its owner.
pub step_all-Sound :
    (lib : Library) (executable : ℕ → Bool) (steps : List Step) (rows : Rows)
    → All (Sound lib executable) rows
    → All (Sound lib executable) (step_all lib executable steps rows)
unfolding step_all
step_all-Sound lib executable [] rows a = a
step_all-Sound lib executable (s ∷ steps) rows a =
    step_all-Sound lib executable steps (step lib executable s rows)
      (step-Sound lib executable s rows a)
