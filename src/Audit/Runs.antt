-- ===== src/Audit/Runs.antt =====
-- Links whose sequences run on without a gap.
use quantumsentinel_web.Prelude.{
  ℕ, suc, ◌≤◌, ◌<◌, ◌≡◌, refl, ◌∙◌, arith, true, ltb, none, some, List, [], ◌∷◌, ◌++◌, inl, inr,
  ◌⊎◌, select_where, order_by,
}
use quantumsentinel_web.Prelude.Sorted.{Above, insert_front}
use quantumsentinel_web.Audit.{AuditChainLink, Tables, genesis, newest, last_sequence, last_hash}
use quantumsentinel_web.Audit.Check.{join, by_sequence, rows_after}

-- From the sequence `n` and the hash `h` the links run to `m` and `k`.
unfoldable pub Runs : ℕ → List ℕ → List AuditChainLink → ℕ → List ℕ → Type 0
Runs n h [] m k = (n ≡ m) × (h ≡ k)
Runs n h (l ∷ links) m k = (l.sequence ≡ suc n) × Runs (suc n) l.entry_hash links m k

pub Runs-append :
    (n m : ℕ) (h k : List ℕ) (links : List AuditChainLink) (l : AuditChainLink)
    → l.sequence ≡ suc m
    → Runs n h links m k
    → Runs n h (links ++ l ∷ []) (suc m) l.entry_hash
unfolding Runs
Runs-append n m h k [] l e r = ground (arith, r.0)
Runs-append n m h k (x ∷ links) l e r = (r.0, Runs-append (suc n) m x.entry_hash k links l e r.1)

NewestAt : ℕ → List ℕ → List AuditChainLink → ℕ → List ℕ → Type 0
NewestAt n h links m k =
    ((newest links ≡ none) × (n ≡ m) × (h ≡ k))
    ⊎ ((x : AuditChainLink) × (newest links ≡ some x)
        × (x.sequence ≡ m)
        × (x.entry_hash ≡ k)
        × (n < m))

Runs-newest :
    (n m : ℕ) (h k : List ℕ) (links : List AuditChainLink)
    → Runs n h links m k
    → NewestAt n h links m k
unfolding Runs newest NewestAt
Runs-newest n m h k [] r = inl (refl, r.0, r.1)
Runs-newest n m h k (l ∷ links) r = elim (Runs-newest (suc n) m l.entry_hash k links r.1) [
  | inl (e, a, b) ↦ rw e (inr (l, refl, r.0 ∙ a, b, omega arith))
  | inr (x, e, a, b, c) ↦
      let later : ltb l.sequence x.sequence ≡ true = ground (arith, r.0, a, c) in
      rw (e, later) (inr (x, refl, a, b, omega arith))
]

pub Runs-tip :
    (m : ℕ) (k : List ℕ) (links : List AuditChainLink)
    → Runs 0 genesis links m k
    → (last_sequence (newest links) ≡ m) × (last_hash (newest links) ≡ k)
unfolding NewestAt
Runs-tip m k links r = elim (Runs-newest 0 m genesis k links r) [
  | inl (e, a, b) ↦ rw e (a, b)
  | inr (x, e, a, b, c) ↦ rw e (a, b)
]

-- Links that run on are in the order of their sequences, all after `n`.
pub Runs-Above :
    (j n m : ℕ) (h k : List ℕ) (links : List AuditChainLink)
    → j ≤ n
    → Runs n h links m k
    → Above by_sequence (suc j) links
unfolding Runs
Runs-Above j n m h k [] b r = tt
Runs-Above j n m h k (l ∷ links) b r =
    (omega (arith, r.0), Runs-Above j (suc n) m l.entry_hash k links (omega arith) r.1)

Runs-order :
    (n m : ℕ) (h k : List ℕ) (links : List AuditChainLink)
    → Runs n h links m k
    → order_by by_sequence links ≡ links
unfolding Runs order_by
Runs-order n m h k [] r = refl
Runs-order n m h k (l ∷ links) r = rw (Runs-order (suc n) m l.entry_hash k links r.1) (
    insert_front by_sequence l links
      (above_mono links (Runs-Above n (suc n) m l.entry_hash k links (omega arith) r.1)))
  where
    above_mono :
        (xs : List AuditChainLink)
        → Above by_sequence (suc n) xs
        → Above by_sequence (by_sequence l) xs
    above_mono [] a = tt
    above_mono (x ∷ xs) a = (omega (arith, r.0, a.0), above_mono xs a.1)

runs_all :
    (links : List AuditChainLink)
    → Above by_sequence 1 links
    → select_where (λ l. ltb 0 l.sequence) links ≡ links
unfolding select_where
runs_all [] a = refl
runs_all (l ∷ links) a = ground (arith, runs_all links a.1)

-- A full check reads the rows of all links.
pub full_rows :
    (m : ℕ) (k : List ℕ) (t : Tables)
    → Runs 0 genesis t.links m k
    → rows_after 0 t ≡ join t.events t.links
unfolding rows_after
full_rows m k t r =
    rw
      (
        runs_all t.links (Runs-Above 0 0 m genesis k t.links (omega arith) r),
        Runs-order 0 m genesis k t.links r,
      )
      refl
