-- ===== src/Trials/Recorded.antt =====
-- That every distinct configuration is recorded, or others recorded some in each attempt.
use quantumsentinel_web.Prelude.{
  ℕ, ◌+◌, ◌<◌, ◌≤◌, ◌≡◌, refl, ap, ◌∙◌, arith, true, false, not, ◌==◌, none, some, List, [], ◌∷◌,
  map, length, select_where, count_where, All, Bool-cases, Option-cases, inl, inr, ◌⊎◌,
}
use quantumsentinel_web.Trials.{
  ResearchTrial, of_family, of_config, is_recorded, commit, or_rows, commit_each, missing, trial,
  if_missing, attempt,
}
use quantumsentinel_web.Trials.Distinct.{Distinct, Distinct-select}

-- A row more leaves what is recorded.
recorded_on :
    (user family h : ℕ) (t : ResearchTrial) (rows : List ResearchTrial)
    → is_recorded user family rows h ≡ true
    → is_recorded user family (t ∷ rows) h ≡ true
unfolding is_recorded count_where
recorded_on user family h t rows e = ground arith

commit_keeps :
    (user family h : ℕ) (ts rows written : List ResearchTrial)
    → is_recorded user family rows h ≡ true
    → commit ts rows ≡ some written
    → is_recorded user family written h ≡ true
unfolding commit
commit_keeps user family h [] rows written e c = ground arith
commit_keeps user family h (t ∷ ts) rows written e c =
    elim (Bool-cases (is_recorded t.user_id t.family_hash rows t.config_hash)) [
      | inl b ↦ absurd (ground (arith, b, c))
      | inr b ↦
          commit_keeps user family h ts (t ∷ rows) written (recorded_on user family h t rows e)
            (rw b at c)
    ]

commit_each-keeps :
    (user family h : ℕ) (more : List (List ResearchTrial)) (rows : List ResearchTrial)
    → is_recorded user family rows h ≡ true
    → is_recorded user family (commit_each more rows) h ≡ true
unfolding commit_each or_rows
commit_each-keeps user family h [] rows e = e
commit_each-keeps user family h (ts ∷ more) rows e = elim (Option-cases (commit ts rows)) [
  | inl c ↦ rw c (commit_each-keeps user family h more rows e)
  | inr (written, c) ↦ rw c (
      commit_each-keeps user family h more written (commit_keeps user family h ts rows written e c))
]

-- What is missing later is what is missing of what was missing.
missing_later :
    (user family : ℕ) (hs : List ℕ) (rows seen : List ResearchTrial)
    → ((h : ℕ) → is_recorded user family rows h ≡ true → is_recorded user family seen h ≡ true)
    → missing user family hs seen ≡ missing user family (missing user family hs rows) seen
unfolding missing select_where
missing_later user family [] rows seen k = refl
missing_later user family (h ∷ hs) rows seen k =
    elim (Bool-cases (is_recorded user family rows h)) [
      | inl b ↦ rw b (rw (k h b) (missing_later user family hs rows seen k))
      | inr b ↦ elim (Bool-cases (is_recorded user family seen h)) [
        | inl c ↦ rw b (rw c (missing_later user family hs rows seen k))
        | inr c ↦ rw b (rw c (ap (λ ks. h ∷ ks) (missing_later user family hs rows seen k)))
      ]
    ]

-- An inserted row is one of its own configuration, and leaves the other ones as they are.
recorded_self :
    (user family source h : ℕ) (rows : List ResearchTrial)
    → is_recorded user family (trial user family source h ∷ rows) h ≡ true
unfolding is_recorded count_where of_config of_family trial
recorded_self user family source h rows = ground arith

recorded_other :
    (user family source h k : ℕ) (rows : List ResearchTrial)
    → (k == h) ≡ false
    → is_recorded user family (trial user family source h ∷ rows) k ≡ is_recorded user family rows k
unfolding is_recorded count_where of_config of_family trial
recorded_other user family source h k rows e = ground arith

missing_other :
    (user family source h : ℕ) (hs : List ℕ) (rows : List ResearchTrial)
    → All (λ k. (k == h) ≡ false) hs
    → missing user family hs (trial user family source h ∷ rows) ≡ missing user family hs rows
unfolding missing select_where
missing_other user family source h [] rows a = refl
missing_other user family source h (k ∷ ks) rows a =
    rw (recorded_other user family source h k rows a.0)
      (rw (missing_other user family source h ks rows a.1) refl)

fewer :
    (user family : ℕ) (hs : List ℕ) (rows : List ResearchTrial)
    → length (missing user family hs rows) ≤ length hs
unfolding missing select_where
fewer user family [] rows = omega arith
fewer user family (h ∷ hs) rows = ground (arith, fewer user family hs rows)

-- A transaction that is refused has a configuration that was recorded before it.
refused :
    (user family source : ℕ) (hs : List ℕ) (rows : List ResearchTrial)
    → Distinct hs
    → commit (map (trial user family source) hs) rows ≡ none
    → length (missing user family hs rows) < length hs
unfolding commit missing select_where trial
refused user family source [] rows d c = absurd (ground arith)
refused user family source (h ∷ hs) rows d c = elim (Bool-cases (is_recorded user family rows h)) [
  | inl b ↦ rw b (omega (arith, fewer user family hs rows))
  | inr b ↦
      let tail =
        refused user family source hs (trial user family source h ∷ rows) d.1 (rw b at c) in
      rw b (omega (arith, rw (missing_other user family source h hs rows d.0) at tail))
]

-- One that succeeds leaves none of its configurations missing.
committed :
    (user family source : ℕ) (hs : List ℕ) (rows written : List ResearchTrial)
    → commit (map (trial user family source) hs) rows ≡ some written
    → missing user family hs written ≡ []
unfolding commit missing select_where trial
committed user family source [] rows written c = refl
committed user family source (h ∷ hs) rows written c =
    elim (Bool-cases (is_recorded user family rows h)) [
      | inl b ↦ absurd (ground (arith, b, c))
      | inr b ↦
          let there : is_recorded user family written h ≡ true =
            commit_keeps user family h (map (trial user family source) hs)
              (trial user family source h ∷ rows) written (recorded_self user family source h rows)
              (rw b at c) in
          rw there (
            committed user family source hs (trial user family source h ∷ rows) written (rw b at c))
    ]

pub missing-Distinct :
    (user family : ℕ) (hs : List ℕ) (rows : List ResearchTrial)
    → Distinct hs
    → Distinct (missing user family hs rows)
unfolding missing
missing-Distinct user family hs rows d =
    Distinct-select (λ h. not (is_recorded user family rows h)) hs d

List-cases : (hs : List ℕ) → (hs ≡ []) ⊎ ((k : ℕ) × (ks : List ℕ) × (hs ≡ k ∷ ks))
List-cases [] = inl refl
List-cases (k ∷ ks) = inr (k, ks, refl)

module _ (user family source : ℕ) (hashes : List ℕ) where
  -- An attempt that finds something missing, by what comes of its commit.
  attempt-missing :
      (meanwhile : List (List ResearchTrial)) (later : List (List (List ResearchTrial)))
      (rows : List ResearchTrial) (k : ℕ) (ks : List ℕ)
      → missing user family hashes rows ≡ k ∷ ks
      → attempt user family source hashes (meanwhile ∷ later) rows
        ≡ or_rows (attempt user family source hashes later (commit_each meanwhile rows)) (
            commit
              (map (trial user family source) (missing user family hashes rows))
              (commit_each meanwhile rows))
  unfolding attempt if_missing
  attempt-missing meanwhile later rows k ks m =
      ap
        (λ hs. if_missing hs rows (
          or_rows (attempt user family source hashes later (commit_each meanwhile rows)) (
            commit (map (trial user family source) (missing user family hashes rows))
              (commit_each meanwhile rows))))
        m

  attempt_none :
      (meanwhile : List (List ResearchTrial)) (later : List (List (List ResearchTrial)))
      (rows : List ResearchTrial)
      → missing user family hashes rows ≡ []
      → attempt user family source hashes (meanwhile ∷ later) rows ≡ rows
  unfolding attempt if_missing
  attempt_none meanwhile later rows m =
      ap
        (λ hs. if_missing hs rows (
          or_rows (attempt user family source hashes later (commit_each meanwhile rows)) (
            commit (map (trial user family source) (missing user family hashes rows))
              (commit_each meanwhile rows))))
        m

  after_commit :
      (meanwhile : List (List ResearchTrial)) (rows written : List ResearchTrial)
      → Distinct hashes
      → commit
          (map (trial user family source) (missing user family hashes rows))
          (commit_each meanwhile rows)
        ≡ some written
      → missing user family hashes written ≡ []
  after_commit meanwhile rows written d c =
      missing_later user family hashes rows written (λ h e.
        commit_keeps user family h
          (map (trial user family source) (missing user family hashes rows))
          (commit_each meanwhile rows) written (commit_each-keeps user family h meanwhile rows e) c)
      ∙ committed user family source (missing user family hashes rows) (commit_each meanwhile rows)
          written c

  after_refusal :
      (meanwhile : List (List ResearchTrial)) (rows : List ResearchTrial)
      → Distinct hashes
      → commit
          (map (trial user family source) (missing user family hashes rows))
          (commit_each meanwhile rows)
        ≡ none
      → length (missing user family hashes (commit_each meanwhile rows))
        < length (missing user family hashes rows)
  after_refusal meanwhile rows d c =
      rw
        (missing_later user family hashes rows (commit_each meanwhile rows)
          (λ h e. commit_each-keeps user family h meanwhile rows e))
        (refused user family source (missing user family hashes rows) (commit_each meanwhile rows)
          (missing-Distinct user family hashes rows d) c)

  pub attempt_outcome :
      (others : List (List (List ResearchTrial))) (rows : List ResearchTrial)
      → Distinct hashes
      → (missing user family hashes (attempt user family source hashes others rows) ≡ [])
        ⊎ (length (missing user family hashes (attempt user family source hashes others rows))
              + length others
            ≤ length (missing user family hashes rows))
  unfolding attempt or_rows
  attempt_outcome [] rows d = inr (omega arith)
  attempt_outcome (meanwhile ∷ later) rows d = elim (List-cases (missing user family hashes rows)) [
    | inl m ↦ inl (rw (attempt_none meanwhile later rows m) m)
    | inr (k, ks, m) ↦
        rw (attempt-missing meanwhile later rows k ks m)
          (elim (Option-cases (
            commit (map (trial user family source) (missing user family hashes rows))
              (commit_each meanwhile rows))) [
                | inr (written, c) ↦ rw c (inl (after_commit meanwhile rows written d c))
                | inl c ↦
                    let less = after_refusal meanwhile rows d c in
                    rw c (elim (attempt_outcome later (commit_each meanwhile rows) d) [
                      | inl all ↦ inl all
                      | inr some_left ↦ inr (omega (arith, less, some_left))
                    ])
              ])
  ]
