-- ===== src/Trials/Counted.antt =====
-- The count of trials that a record returns, against the configurations that it was given.
use quantumsentinel_web.Prelude.{
  ℕ, ◌+◌, ◌≤◌, ◌≡◌, refl, ap, arith, true, false, ◌==◌, if◌then◌else◌, List, [], ◌∷◌, map, length,
  select_where, count_where, All, Bool-cases, inl, inr, ◌⊎◌,
}
use quantumsentinel_web.Trials.{
  ResearchTrial, of_family, of_config, is_recorded, distinct, missing, attempt, record_trials,
  count,
}
use quantumsentinel_web.Trials.Distinct.{Distinct, distinct-Distinct}
use quantumsentinel_web.Trials.Recorded.{attempt_outcome}

module _ (user family : ℕ) where
  recorded : List ℕ → List ResearchTrial → List ℕ
  recorded hs rows = select_where (is_recorded user family rows) hs

  -- A row of another configuration leaves what is recorded.
  row_past :
      (t : ResearchTrial) (rows : List ResearchTrial) (k : ℕ)
      → of_config user family k t ≡ false
      → is_recorded user family (t ∷ rows) k ≡ is_recorded user family rows k
  unfolding is_recorded count_where
  row_past t rows k e = ground arith

  recorded_past :
      (t : ResearchTrial) (rows : List ResearchTrial) (hs : List ℕ)
      → All (λ k. of_config user family k t ≡ false) hs
      → recorded hs (t ∷ rows) ≡ recorded hs rows
  unfolding recorded select_where
  recorded_past t rows [] a = refl
  recorded_past t rows (k ∷ ks) a =
      rw (row_past t rows k a.0) (rw (recorded_past t rows ks a.1) refl)

  others_past :
      (t : ResearchTrial) (h : ℕ) (hs : List ℕ)
      → of_config user family h t ≡ true
      → All (λ k. (k == h) ≡ false) hs
      → All (λ k. of_config user family k t ≡ false) hs
  unfolding of_config
  others_past t h [] e a = tt
  others_past t h (k ∷ ks) e a = (ground (arith, a.0), others_past t h ks e a.1)

  in_family :
      (t : ResearchTrial) (h : ℕ)
      → of_config user family h t ≡ true
      → of_family user family t ≡ true
  unfolding of_config
  in_family t h e = ground arith

  -- A row records at most one more of configurations that differ, and one of its family.
  one_row :
      (t : ResearchTrial) (rows : List ResearchTrial) (hs : List ℕ)
      → Distinct hs
      → length (recorded hs (t ∷ rows))
        ≤ (if of_family user family t then 1 else 0) + length (recorded hs rows)
  unfolding recorded select_where
  one_row t rows [] d = ground arith
  one_row t rows (h ∷ hs) d = elim (Bool-cases (of_config user family h t)) [
    | inl b ↦
        let past = ap length (recorded_past t rows hs (others_past t h hs b d.0)) in
        let here : of_family user family t ≡ true = in_family t h b in ground (arith, past, here)
    | inr b ↦
        let rest = one_row t rows hs d.1 in
        let past = row_past t rows h b in ground (arith, rest, past)
  ]

  none_recorded : (hs : List ℕ) → recorded hs [] ≡ []
  unfolding recorded select_where is_recorded count_where
  none_recorded [] = refl
  none_recorded (h ∷ hs) = none_recorded hs

  at_least :
      (rows : List ResearchTrial) (hs : List ℕ)
      → Distinct hs
      → length (recorded hs rows) ≤ count user family rows
  unfolding count count_where
  at_least [] hs d = rw (none_recorded hs) (omega arith)
  at_least (t ∷ rows) hs d = omega (arith, one_row t rows hs d, at_least rows hs d)

  all_recorded :
      (rows : List ResearchTrial) (hs : List ℕ)
      → missing user family hs rows ≡ []
      → recorded hs rows ≡ hs
  unfolding recorded missing select_where
  all_recorded rows [] e = refl
  all_recorded rows (h ∷ hs) e = elim (Bool-cases (is_recorded user family rows h)) [
    | inl b ↦ rw b (ap (λ ks. h ∷ ks) (all_recorded rows hs (rw b at e)))
    | inr b ↦ absurd (ground (arith, b, e))
  ]

-- A record returns at least as many trials as it was given distinct configurations, or in each of
-- its attempts another request recorded one that was missing: what is still missing and the
-- attempts together are no more than what was missing at the start.
pub record_trials-counts :
    (digest : ℕ → ℕ) (user family : ℕ) (configs : List ℕ) (source : ℕ)
    (others : List (List (List ResearchTrial))) (rows : List ResearchTrial)
    → (length (distinct (map digest configs))
        ≤ (record_trials digest user family configs source others rows).1)
      ⊎ (length (
              missing user family
                (distinct (map digest configs))
                (record_trials digest user family configs source others rows).0)
            + length others
          ≤ length (missing user family (distinct (map digest configs)) rows))
unfolding record_trials
record_trials-counts digest user family configs source others rows =
    let hashes = distinct (map digest configs) in
    let d = distinct-Distinct (map digest configs) in
    let left = attempt user family source hashes others rows in
    elim (attempt_outcome user family source hashes others rows d) [
      | inl all ↦ inl (
          omega (
            arith,
            at_least user family left hashes d,
            ap length (all_recorded user family left hashes all),
          ))
      | inr some_left ↦ inr some_left
    ]
