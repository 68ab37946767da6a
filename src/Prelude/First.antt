-- ===== src/Prelude/First.antt =====
-- The first row that a WHERE clause selects, after rows are added, changed and removed.
use quantumsentinel_web.Prelude.Table.{
  select_where, update_where, update_first, count_where, first_where,
}
use mathlib.Core.Path.{◌≡◌, refl}
use mathlib.Core.Logic.{◌≢◌}
use mathlib.Core.Bool.{Bool, true, false}
use mathlib.Core.Option.{some, none}
use mathlib.Core.List.{List, [], ◌∷◌, ◌++◌}
use native.Mathlib.Omega.{arith}

pub first_where-select_where :
    {A : Type 0} (p q : A → Bool) (e : A) (xs : List A)
    → first_where p xs ≡ some e
    → q e ≡ true
    → first_where p (select_where q xs) ≡ some e
unfolding first_where select_where
first_where-select_where p q e [] h k = h
first_where-select_where p q e (x ∷ xs) h k = ground (arith, first_where-select_where p q e xs)

pub first_where-satisfies :
    {A : Type 0} (p : A → Bool) (e : A) (xs : List A) → first_where p xs ≡ some e → p e ≡ true
unfolding first_where
first_where-satisfies p e [] h = cc
first_where-satisfies p e (x ∷ xs) h = ground (arith, first_where-satisfies p e xs)

pub first_where-append :
    {A : Type 0} (p : A → Bool) (e : A) (xs ys : List A)
    → first_where p xs ≡ some e
    → first_where p (xs ++ ys) ≡ some e
unfolding first_where
first_where-append p e [] ys h = cc
first_where-append p e (x ∷ xs) ys h = ground (arith, first_where-append p e xs ys)

pub first_where-append_new :
    {A : Type 0} (p : A → Bool) (e : A) (xs : List A)
    → count_where p xs ≡ 0
    → p e ≡ true
    → first_where p (xs ++ e ∷ []) ≡ some e
unfolding first_where count_where
first_where-append_new p e [] h k = ground arith
first_where-append_new p e (x ∷ xs) h k = ground (arith, first_where-append_new p e xs)

pub first_where-update :
    {A : Type 0} (p : A → Bool) (e : A) (xs : List A)
    → count_where p xs ≢ 0
    → p e ≡ true
    → first_where p (update_where p (λ x. e) xs) ≡ some e
unfolding first_where count_where update_where
first_where-update p e [] h k = absurd (h refl)
first_where-update p e (x ∷ xs) h k = ground (arith, first_where-update p e xs)

pub first_where-update_other :
    {A : Type 0} (p q : A → Bool) (e new : A) (xs : List A)
    → ((x : A) → q x ≡ true → p x ≡ false)
    → p new ≡ false
    → first_where p xs ≡ some e
    → first_where p (update_where q (λ x. new) xs) ≡ some e
unfolding first_where update_where
first_where-update_other p q e new [] d n h = h
first_where-update_other p q e new (x ∷ xs) d n h =
    ground (arith, d x, first_where-update_other p q e new xs d n)

pub first_where-update_first :
    {A : Type 0} (p : A → Bool) (f : A → A) (x : A) (xs : List A)
    → first_where p xs ≡ some x
    → p (f x) ≡ true
    → first_where p (update_first p f xs) ≡ some (f x)
unfolding first_where update_first
first_where-update_first p f x [] h k = cc
first_where-update_first p f x (y ∷ ys) h k = ground (arith, first_where-update_first p f x ys)

pub first_where-none :
    {A : Type 0} (p : A → Bool) (xs : List A) → count_where p xs ≡ 0 → first_where p xs ≡ none
unfolding first_where count_where
first_where-none p [] h = refl
first_where-none p (x ∷ xs) h = ground (arith, first_where-none p xs)

pub count_where-found :
    {A : Type 0} (p : A → Bool) (xs : List A) → first_where p xs ≡ none → count_where p xs ≡ 0
unfolding first_where count_where
count_where-found p [] h = refl
count_where-found p (x ∷ xs) h = ground (arith, count_where-found p xs)

-- What is removed is what the row that was added has.
pub count_where-select_new :
    {A : Type 0} (p q : A → Bool) (x : A) (xs : List A)
    → count_where p xs ≡ 0
    → q x ≡ false
    → count_where p (select_where q (xs ++ x ∷ [])) ≡ 0
unfolding count_where select_where
count_where-select_new p q x [] h k = ground arith
count_where-select_new p q x (y ∷ ys) h k = ground (arith, count_where-select_new p q x ys)
