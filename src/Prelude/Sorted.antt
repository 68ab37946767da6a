-- ===== src/Prelude/Sorted.antt =====
-- Lists sorted by `order_by`.
use quantumsentinel_web.Prelude.Table.{All, insert_by, order_by, select_where, first_where}
use quantumsentinel_web.Prelude.Tests.{if◌then◌else◌}
use Prim.Native.Nat.{ℕ, ◌≤◌}
use mathlib.Core.Path.{◌≡◌, refl}
use mathlib.Core.Bool.{Bool, true}
use mathlib.Core.Option.{some}
use mathlib.Core.List.{List, [], ◌∷◌}
use native.Mathlib.Omega.{arith}

module _ {A : Type 0} (key : A → ℕ) where
  -- Every key of the list is at least `n`, and the keys ascend.
  abbrev pub Above : ℕ → List A → Type 0
  Above n xs = All (λ x. n ≤ key x) xs

  abbrev pub Ascends : List A → Type 0
  Ascends [] = Unit
  Ascends (x ∷ xs) = Above (key x) xs × Ascends xs

  Above-insert :
      (n : ℕ) (x : A) (xs : List A) → n ≤ key x → Above n xs → Above n (insert_by key x xs)
  unfolding insert_by
  Above-insert n x [] h a = (h, tt)
  Above-insert n x (y ∷ ys) h a = ground (arith, Above-insert n x ys h a.1)

  pub Above-mono : {m n : ℕ} (xs : List A) → m ≤ n → Above n xs → Above m xs
  Above-mono [] h a = tt
  Above-mono {m} {n} (x ∷ xs) h a = (omega arith, Above-mono {m = m} {n = n} xs h a.1)

  Ascends-insert : (x : A) (xs : List A) → Ascends xs → Ascends (insert_by key x xs)
  unfolding insert_by
  Ascends-insert x [] s = (tt, tt)
  Ascends-insert x (y ∷ ys) s = ground (
    arith,
    Ascends-insert x ys s.1,
    Above-mono {m = key x} {n = key y} ys,
    Above-insert (key y) x ys,
  )

  pub Ascends-order_by : (xs : List A) → Ascends (order_by key xs)
  unfolding order_by
  Ascends-order_by [] = tt
  Ascends-order_by (x ∷ xs) = Ascends-insert x (order_by key xs) (Ascends-order_by xs)

  -- In front of keys that are all as large, the insertion is at the front.
  pub insert_front : (x : A) (ys : List A) → Above (key x) ys → insert_by key x ys ≡ x ∷ ys
  unfolding insert_by
  insert_front x [] a = refl
  insert_front x (y ∷ ys) a = ground arith

module _ {A : Type 0} (key : A → ℕ) (p : A → Bool) where
  pub Above-select : (n : ℕ) (xs : List A) → Above key n xs → Above key n (select_where p xs)
  unfolding select_where
  Above-select n [] a = tt
  Above-select n (x ∷ xs) a = ground (arith, Above-select n xs a.1)

  select-insert :
      (x : A) (ys : List A)
      → Ascends key ys
      → select_where p (insert_by key x ys)
        ≡ (if p x then insert_by key x (select_where p ys) else select_where p ys)
  unfolding select_where insert_by
  select-insert x [] s = ground arith
  select-insert x (y ∷ ys) s = ground (
    arith,
    select-insert x ys s.1,
    λ (h : key x ≤ key y).
        insert_front key x (select_where p ys)
          (Above-select (key x) ys (Above-mono key {m = key x} {n = key y} ys h s.0)),
  )

  pub select-order_by :
      (xs : List A) → select_where p (order_by key xs) ≡ order_by key (select_where p xs)
  unfolding order_by select_where
  select-order_by [] = refl
  select-order_by (x ∷ xs) =
      ground
        (arith, select-insert x (order_by key xs) (Ascends-order_by key xs), select-order_by xs)

module _ {A : Type 0} (key : A → ℕ) where
  All-of_insert :
      (P : A → Type 0) (x : A) (ys : List A) → All P (insert_by key x ys) → P x × All P ys
  unfolding insert_by
  All-of_insert P x [] h = h
  All-of_insert P x (y ∷ ys) h = ground (arith, All-of_insert P x ys)

  All-of_order_by : (P : A → Type 0) (xs : List A) → All P (order_by key xs) → All P xs
  unfolding order_by
  All-of_order_by P [] h = tt
  All-of_order_by P (x ∷ xs) h =
      let (hx, hs) = All-of_insert P x (order_by key xs) h in (hx, All-of_order_by P xs hs)

  head-least :
      (xs : List A) (x : A)
      → Ascends key xs
      → first_where (λ y. true) xs ≡ some x
      → Above key (key x) xs
  unfolding first_where
  head-least [] x s e = cc
  head-least (y ∷ ys) x s e = ground (arith, le_all)
    where
      le_all : Above key (key y) (y ∷ ys)
      le_all = (omega arith, s.0)

  -- The first row in the order of a key has the least key.
  pub first-order_by_least :
      (xs : List A) (x : A)
      → first_where (λ y. true) (order_by key xs) ≡ some x
      → All (λ y. key x ≤ key y) xs
  first-order_by_least xs x e =
      All-of_order_by (λ y. key x ≤ key y) xs
        (head-least (order_by key xs) x (Ascends-order_by key xs) e)
