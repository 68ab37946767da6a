-- ===== src/Trials/Distinct.antt =====
-- Lists of hashes of which no two are the same, and what a query keeps of them.
use quantumsentinel_web.Prelude.{
  ℕ, ◌≡◌, arith, Bool, true, false, not, ◌==◌, List, [], ◌∷◌, select_where, All, Bool-cases, inl,
  inr,
}
use quantumsentinel_web.Trials.{distinct}

-- No two are the same.
abbrev pub Distinct : List ℕ → Type 0
Distinct [] = Unit
Distinct (h ∷ hs) = All (λ k. (k == h) ≡ false) hs × Distinct hs

All-select : (P : ℕ → Type 0) (p : ℕ → Bool) (hs : List ℕ) → All P hs → All P (select_where p hs)
unfolding select_where
All-select P p [] a = tt
All-select P p (h ∷ hs) a = elim (Bool-cases (p h)) [
  | inl b ↦ rw b (a.0, All-select P p hs a.1)
  | inr b ↦ rw b (All-select P p hs a.1)
]

selected : (p : ℕ → Bool) (hs : List ℕ) → All (λ k. p k ≡ true) (select_where p hs)
unfolding select_where
selected p [] = tt
selected p (h ∷ hs) = elim (Bool-cases (p h)) [
  | inl b ↦ rw b (b, selected p hs)
  | inr b ↦ rw b (selected p hs)
]

pub Distinct-select : (p : ℕ → Bool) (hs : List ℕ) → Distinct hs → Distinct (select_where p hs)
unfolding select_where
Distinct-select p [] d = tt
Distinct-select p (h ∷ hs) d = elim (Bool-cases (p h)) [
  | inl b ↦ rw b (All-select (λ k. (k == h) ≡ false) p hs d.0, Distinct-select p hs d.1)
  | inr b ↦ rw b (Distinct-select p hs d.1)
]

differ : (h : ℕ) (hs : List ℕ) → All (λ k. not (k == h) ≡ true) hs → All (λ k. (k == h) ≡ false) hs
differ h [] a = tt
differ h (k ∷ ks) a = (ground (arith, a.0), differ h ks a.1)

pub distinct-Distinct : (hs : List ℕ) → Distinct (distinct hs)
unfolding distinct
distinct-Distinct [] = tt
distinct-Distinct (h ∷ hs) = (
  differ h _ (selected (λ k. not (k == h)) (distinct hs)),
  Distinct-select (λ k. not (k == h)) (distinct hs) (distinct-Distinct hs),
)
