-- ===== src/Prelude/Table.antt =====
-- Database tables as lists of rows, and what one SQL statement does to them: an UPDATE rewrites the
-- rows that its WHERE clause selects and reports how many there were, a SELECT returns them in the
-- order of the table, ORDER BY sorts by a number and keeps the order of equal keys.
use Prim.Native.Nat.{ℕ, ◌+◌, ◌*◌}
use mathlib.Core.Path.{◌≡◌, refl}
use mathlib.Core.Logic.{◌≢◌, inl, inr}
use mathlib.Core.Bool.{Bool, true, false}
use mathlib.Core.Option.{Option, none, some}
use mathlib.Core.List.{List, [], ◌∷◌, ◌++◌}
use native.Mathlib.Omega.{arith}
use quantumsentinel_web.Prelude.Tests.{if◌then◌else◌, leb, Bool-cases}

-- Every element satisfies `P`.
abbrev pub All {ℓ κ} : {A : Type ℓ} → (A → Type κ) → List A → Type κ
All P [] = Unit
All P (x ∷ xs) = P x × All P xs

module _ {ℓ} {A : Type ℓ} where
  unfoldable pub update_where : (A → Bool) → (A → A) → List A → List A
  update_where p f [] = []
  update_where p f (x ∷ xs) = (if p x then f x else x) ∷ update_where p f xs

  unfoldable pub count_where : (A → Bool) → List A → ℕ
  count_where p [] = 0
  count_where p (x ∷ xs) = (if p x then 1 else 0) + count_where p xs

  unfoldable pub select_where : (A → Bool) → List A → List A
  select_where p [] = []
  select_where p (x ∷ xs) = let rest = select_where p xs in if p x then x ∷ rest else rest

  unfoldable pub first_where : (A → Bool) → List A → Option A
  first_where p [] = none
  first_where p (x ∷ xs) = if p x then some x else first_where p xs

  -- The first row that is selected, changed.
  unfoldable pub update_first : (A → Bool) → (A → A) → List A → List A
  update_first p f [] = []
  update_first p f (x ∷ xs) = if p x then f x ∷ xs else x ∷ update_first p f xs

  unfoldable pub sum_by : (A → ℕ) → List A → ℕ
  sum_by g [] = 0
  sum_by g (x ∷ xs) = g x + sum_by g xs

  unfoldable pub insert_by : (A → ℕ) → A → List A → List A
  insert_by key x [] = x ∷ []
  insert_by key x (y ∷ ys) = if leb (key x) (key y) then x ∷ y ∷ ys else y ∷ insert_by key x ys

  unfoldable pub order_by : (A → ℕ) → List A → List A
  unfolding insert_by
  order_by key [] = []
  order_by key (x ∷ xs) = insert_by key x (order_by key xs)

module _ {ℓ κ} {A : Type ℓ} (P : A → Type κ) where
  pub All-append : (xs ys : List A) → All P xs → All P ys → All P (xs ++ ys)
  All-append [] ys hx hy = hy
  All-append (x ∷ xs) ys hx hy = (hx.0, All-append xs ys hx.1 hy)

module _ {ℓ κ} {A : Type ℓ} (P : A → Type κ) (p : A → Bool) where
  if_keeps :
      (f : A → A) (x : A) (b : Bool) → (b ≡ true → P x → P (f x)) → P x → P (if b then f x else x)
  if_keeps f x true k h = k refl h
  if_keeps f x false k h = h

  -- An UPDATE keeps a property of all rows if it keeps it for the rows that it selects.
  pub All-update_where :
      (f : A → A)
      → ((a : A) → p a ≡ true → P a → P (f a))
      → (xs : List A) → All P xs
      → All P (update_where p f xs)
  unfolding update_where
  All-update_where f k [] h = tt
  All-update_where f k (x ∷ xs) h = (if_keeps f x (p x) (k x) h.0, All-update_where f k xs h.1)

-- A property of a conditional, from each branch.
pub if_both {ℓ κ} :
    {A : Type ℓ} (P : A → Type κ) (b : Bool) {x y : A}
    → (b ≡ true → P x)
    → (b ≡ false → P y)
    → P (if b then x else y)
if_both P true kx ky = kx refl
if_both P false kx ky = ky refl

module _ {ℓ} {A : Type ℓ} (p : A → Bool) (f : A → A) where
  -- An UPDATE after which its WHERE clause holds no more selects nothing the next time.
  pub count_where-update_where :
      ((a : A) → p a ≡ true → p (f a) ≡ false)
      → (xs : List A) → count_where p (update_where p f xs) ≡ 0
  unfolding count_where update_where
  count_where-update_where k [] = refl
  count_where-update_where k (x ∷ xs) = ground (arith, k x, count_where-update_where k xs)

  -- What an UPDATE takes from each row that it selects, it takes from the sum once for each.
  pub sum_by-update_where_sub :
      (g : A → ℕ) (c : ℕ)
      → ((a : A) → p a ≡ true → g (f a) + c ≡ g a)
      → (xs : List A) → sum_by g (update_where p f xs) + c * count_where p xs ≡ sum_by g xs
  unfolding sum_by count_where update_where
  sum_by-update_where_sub g c k [] = omega arith
  sum_by-update_where_sub g c k (x ∷ xs) = ground (arith, k x, sum_by-update_where_sub g c k xs)

  -- The same where the rows are known to satisfy `Q`.
  pub sum_by-update_where-All {κ} :
      (Q : A → Type κ) (g : A → ℕ) (c : ℕ)
      → ((a : A) → Q a → p a ≡ true → g (f a) + c ≡ g a)
      → (xs : List A) → All Q xs
      → sum_by g (update_where p f xs) + c * count_where p xs ≡ sum_by g xs
  unfolding sum_by count_where update_where
  sum_by-update_where-All Q g c k [] q = omega arith
  sum_by-update_where-All Q g c k (x ∷ xs) q =
      ground (arith, k x q.0, sum_by-update_where-All Q g c k xs q.1)

  pub sum_by-update_where_add :
      (g : A → ℕ) (c : ℕ)
      → ((a : A) → p a ≡ true → g (f a) ≡ g a + c)
      → (xs : List A) → sum_by g (update_where p f xs) ≡ sum_by g xs + c * count_where p xs
  unfolding sum_by count_where update_where
  sum_by-update_where_add g c k [] = omega arith
  sum_by-update_where_add g c k (x ∷ xs) = ground (arith, k x, sum_by-update_where_add g c k xs)

  pub sum_by-update_where_same :
      (g : A → ℕ)
      → ((a : A) → p a ≡ true → g (f a) ≡ g a)
      → (xs : List A) → sum_by g (update_where p f xs) ≡ sum_by g xs
  unfolding sum_by update_where
  sum_by-update_where_same g k [] = omega arith
  sum_by-update_where_same g k (x ∷ xs) = ground (arith, k x, sum_by-update_where_same g k xs)

module _ {ℓ} {A : Type ℓ} (p : A → Bool) where
  -- A WHERE clause that no row satisfies.
  pub update_where_none :
      (f : A → A) (xs : List A) → All (λ x. p x ≡ false) xs → update_where p f xs ≡ xs
  unfolding update_where
  update_where_none f [] h = refl
  update_where_none f (x ∷ xs) h = rw (h.0, update_where_none f xs h.1)

  pub count_where_none : (xs : List A) → All (λ x. p x ≡ false) xs → count_where p xs ≡ 0
  unfolding count_where
  count_where_none [] h = refl
  count_where_none (x ∷ xs) h = rw (h.0, count_where_none xs h.1) (omega arith)

  -- An UPDATE that selected a row left an updated row.
  pub updated_row {κ} :
      (P : A → Type κ) (f : A → A) (xs : List A)
      → count_where p xs ≢ 0
      → All P (update_where p f xs)
      → (x : A) × (p x ≡ true) × P (f x)
  unfolding count_where update_where
  updated_row P f [] n h = absurd (n refl)
  updated_row P f (x ∷ xs) n h = elim (Bool-cases (p x)) [
    | inl e ↦ (x, e, (rw e at h).0)
    | inr e ↦ updated_row P f xs (λ z. n (rw (e, z) (omega arith))) h.1
  ]
