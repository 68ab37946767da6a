-- ===== src/Auth/Limiter/Times.antt =====
-- The times of failed logins: which are recent, and which is the latest.
use quantumsentinel_web.Prelude.{
  ℕ, ◌≤◌, ◌≡◌, refl, arith, Bool, true, false, List, [], ◌∷◌, ◌++◌, select_where, All, All-append,
  Bool-cases, inl, inr, if◌then◌else◌,
}
use quantumsentinel_web.Prelude.Sorted.{Ascends}
use quantumsentinel_web.Auth.Limiter.{latest, is_recent, is_none, recent}

pub recent_again :
    (now later : ℕ) (xs : List ℕ) → now ≤ later → recent later (recent now xs) ≡ recent later xs
unfolding recent select_where
recent_again now later [] h = refl
recent_again now later (t ∷ ts) h = ground (arith, recent_again now later ts h)

pub recent-append :
    (now : ℕ) (xs ys : List ℕ) → recent now (xs ++ ys) ≡ recent now xs ++ recent now ys
unfolding recent select_where
recent-append now [] ys = refl
recent-append now (t ∷ ts) ys = ground (arith, recent-append now ts ys)

pub latest-append : (t : ℕ) (xs : List ℕ) → latest (xs ++ t ∷ []) ≡ t
unfolding latest
latest-append t [] = refl
latest-append t (x ∷ []) = refl
latest-append t (x ∷ y ∷ ys) = latest-append t (y ∷ ys)

-- The times of one key, in their order and not after `now`.
abbrev pub Timed : ℕ → List ℕ → Type 0
Timed now times = (is_none times ≡ false) × Ascends (λ t. t) times × All (λ t. t ≤ now) times

most : (xs : List ℕ) → Ascends (λ t. t) xs → All (λ t. t ≤ latest xs) xs
unfolding latest
most [] s = tt
most (t ∷ []) s = (omega arith, tt)
most (t ∷ u ∷ ts) s = ground (arith, most (u ∷ ts) s.1, s.0)

none_recent :
    (now last : ℕ) (xs : List ℕ)
    → is_recent now last ≡ false
    → All (λ t. t ≤ last) xs
    → recent now xs ≡ []
unfolding recent select_where
none_recent now last [] h a = refl
none_recent now last (t ∷ ts) h a = ground (arith, none_recent now last ts h a.1)

-- Where the latest failure has passed, none is recent.
pub stale_none :
    (now : ℕ) (xs : List ℕ)
    → Ascends (λ t. t) xs
    → is_recent now (latest xs) ≡ false
    → recent now xs ≡ []
stale_none now xs s h = none_recent now (latest xs) xs h (most xs s)

-- A recent latest failure stays the latest of the recent ones.
recent-latest :
    (now : ℕ) (xs : List ℕ)
    → is_none xs ≡ false
    → is_recent now (latest xs) ≡ true
    → (is_none (recent now xs) ≡ false) × (latest (recent now xs) ≡ latest xs)
unfolding latest recent select_where
recent-latest now [] n h = ground arith
recent-latest now (t ∷ []) n h = ground arith
recent-latest now (t ∷ u ∷ ts) n h =
    carry t (recent now (u ∷ ts)) (is_recent now t) (recent-latest now (u ∷ ts) refl h)
  where
    carry :
        (t : ℕ) (rest : List ℕ) (b : Bool)
        → (is_none rest ≡ false) × (latest rest ≡ latest (u ∷ ts))
        → (is_none (if b then t ∷ rest else rest) ≡ false)
          × (latest (if b then t ∷ rest else rest) ≡ latest (u ∷ ts))
    carry t [] b k = ground arith
    carry t (x ∷ xs) true k = (refl, k.1)
    carry t (x ∷ xs) false k = k

pub latest-recent :
    (now : ℕ) (xs : List ℕ)
    → Ascends (λ t. t) xs
    → is_none xs ≡ false
    → is_none (recent now xs) ≡ false
    → latest (recent now xs) ≡ latest xs
latest-recent now xs s n h = elim (Bool-cases (is_recent now (latest xs))) [
  | inl e ↦ (recent-latest now xs n e).1
  | inr e ↦ ground (arith, stale_none now xs s e)
]

All-recent : (P : ℕ → Type 0) (now : ℕ) (xs : List ℕ) → All P xs → All P (recent now xs)
unfolding recent select_where
All-recent P now [] a = tt
All-recent P now (t ∷ ts) a = ground (arith, All-recent P now ts a.1)

Ascends-recent : (now : ℕ) (xs : List ℕ) → Ascends (λ t. t) xs → Ascends (λ t. t) (recent now xs)
unfolding recent select_where
Ascends-recent now [] s = tt
Ascends-recent now (t ∷ ts) s =
    ground (arith, Ascends-recent now ts s.1, All-recent (λ u. t ≤ u) now ts s.0)

pub recent-Timed :
    (last now : ℕ) (xs : List ℕ)
    → Timed last xs
    → is_none (recent now xs) ≡ false
    → Timed last (recent now xs)
recent-Timed last now xs k n = (n, Ascends-recent now xs k.1, All-recent (λ t. t ≤ last) now xs k.2)

pub All-later :
    (last now : ℕ) (xs : List ℕ) → last ≤ now → All (λ t. t ≤ last) xs → All (λ t. t ≤ now) xs
All-later last now [] h a = tt
All-later last now (t ∷ ts) h a = (omega arith, All-later last now ts h a.1)

append-Ascends :
    (now : ℕ) (xs : List ℕ)
    → Ascends (λ t. t) xs
    → All (λ t. t ≤ now) xs
    → Ascends (λ t. t) (xs ++ now ∷ [])
append-Ascends now [] s a = (tt, tt)
append-Ascends now (t ∷ ts) s a =
    (All-append (λ u. t ≤ u) ts (now ∷ []) s.0 (a.0, tt), append-Ascends now ts s.1 a.1)

append_some : (now : ℕ) (xs : List ℕ) → is_none (xs ++ now ∷ []) ≡ false
append_some now [] = refl
append_some now (x ∷ xs) = refl

-- A new failure at `now`, after the recent ones.
pub append-Timed :
    (now : ℕ) (xs : List ℕ)
    → Ascends (λ t. t) xs
    → All (λ t. t ≤ now) xs
    → Timed now (recent now xs ++ now ∷ [])
append-Timed now xs s a = (
  append_some now (recent now xs),
  append-Ascends now (recent now xs) (Ascends-recent now xs s) (All-recent (λ t. t ≤ now) now xs a),
  All-append (λ t. t ≤ now) (recent now xs) (now ∷ []) (All-recent (λ t. t ≤ now) now xs a)
      (omega arith, tt),
)
