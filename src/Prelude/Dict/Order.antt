-- ===== src/Prelude/Dict/Order.antt =====
-- What the operations keep of a dictionary: each key once, a property of the items, an order.
use Prim.Native.Nat.{ℕ, ◌≤◌}
use mathlib.Core.Path.{◌≡◌, refl}
use mathlib.Core.Logic.{◌⊎◌, inl, inr}
use mathlib.Core.Bool.{Bool, true, false, not}
use mathlib.Core.Option.{none, some}
use mathlib.Core.List.{List, [], ◌∷◌, ◌++◌}
use native.Mathlib.Omega.{arith}
use quantumsentinel_web.Prelude.Tests.{if◌then◌else◌, Bool-cases}
use quantumsentinel_web.Prelude.Table.{All, All-append, select_where}
use quantumsentinel_web.Prelude.Sorted.{Above, Ascends}
use quantumsentinel_web.Prelude.Dict.{
  Item, KeyTest, get, pop, put, put_last, pop_front, get-pop_self, get-put_other, get-append_last,
}

module _ {K V : Type 0} (eq : KeyTest K) where
  -- No key stands twice.
  unfoldable pub Distinct : List (Item K V) → Type 0
  unfolding get
  Distinct [] = Unit
  Distinct (x ∷ xs) = (get eq x.key xs ≡ none) × Distinct xs

  get-pop-none :
      (j k : K) (xs : List (Item K V)) → get eq j xs ≡ none → get eq j (pop eq k xs) ≡ none
  unfolding get pop
  get-pop-none j k [] h = refl
  get-pop-none j k (x ∷ xs) h = ground (arith, get-pop-none j k xs)

  pub pop-Distinct : (k : K) (xs : List (Item K V)) → Distinct xs → Distinct (pop eq k xs)
  unfolding pop Distinct
  pop-Distinct k [] d = tt
  pop-Distinct k (x ∷ xs) d = ground (arith, pop-Distinct k xs d.1, get-pop-none x.key k xs d.0)

  -- Popping from the front takes no key from the rest, and all of it where the items are stale.
  pub pop_front-Distinct :
      (stale : V → Bool) (xs : List (Item K V)) → Distinct xs → Distinct (pop_front stale xs)
  unfolding pop_front Distinct
  pop_front-Distinct stale [] d = tt
  pop_front-Distinct stale (x ∷ xs) d = ground (arith, pop_front-Distinct stale xs d.1)

  test_false :
      (x : Item K V) (k : K) (xs : List (Item K V))
      → get eq x.key xs ≡ none
      → eq.test k x.key ≡ true
      → get eq k xs ≡ none
  test_false x k xs h e = ground (arith, eq.test_eq k x.key)

  pub put-Distinct : (k : K) (v : V) (xs : List (Item K V)) → Distinct xs → Distinct (put eq k v xs)
  unfolding put get Distinct
  put-Distinct k v [] d = (refl, tt)
  put-Distinct k v (x ∷ xs) d = ground (
    arith,
    put-Distinct k v xs d.1,
    get-put_other eq x.key k v xs,
    test_false x k xs d.0,
    λ (e : eq.test x.key k ≡ true). eq.test_eq x.key k e,
    eq.test_refl k,
  )

  append-Distinct :
      (k : K) (v : V) (xs : List (Item K V))
      → get eq k xs ≡ none
      → Distinct xs
      → Distinct (xs ++ record { key = k; value = v } ∷ [])
  unfolding get Distinct
  append-Distinct k v [] h d = (refl, tt)
  append-Distinct k v (x ∷ xs) h d = ground (
    arith,
    append-Distinct k v xs,
    get-append_last eq x.key k v xs,
    λ (e : eq.test x.key k ≡ true). eq.test_eq x.key k e,
    eq.test_refl k,
  )

  pub put_last-Distinct :
      (k : K) (v : V) (xs : List (Item K V)) → Distinct xs → Distinct (put_last eq k v xs)
  unfolding put_last
  put_last-Distinct k v xs d =
      append-Distinct k v (pop eq k xs) (get-pop_self eq k xs) (pop-Distinct k xs d)

  absent_pop_front :
      (stale : V → Bool) (k : K) (xs : List (Item K V))
      → get eq k xs ≡ none
      → get eq k (pop_front stale xs) ≡ none
  unfolding pop_front get
  absent_pop_front stale k [] h = refl
  absent_pop_front stale k (x ∷ xs) h = ground (arith, absent_pop_front stale k xs)

  -- What a popped item had is stale.
  pub get-pop_front :
      (stale : V → Bool) (k : K) (xs : List (Item K V))
      → Distinct xs
      → (get eq k (pop_front stale xs) ≡ get eq k xs)
        ⊎ ((v : V) × (get eq k xs ≡ some v)
            × (stale v ≡ true)
            × (get eq k (pop_front stale xs) ≡ none))
  unfolding pop_front get Distinct
  get-pop_front stale k [] d = inl refl
  get-pop_front stale k (x ∷ xs) d = elim (Bool-cases (stale x.value)) [
    | inl e ↦ rw e (popped (Bool-cases (eq.test k x.key)) e (get-pop_front stale k xs d.1))
    | inr e ↦ rw e (inl refl)
  ]
    where
      popped :
          (eq.test k x.key ≡ true) ⊎ (eq.test k x.key ≡ false)
          → stale x.value ≡ true
          → ((get eq k (pop_front stale xs) ≡ get eq k xs)
              ⊎ ((v : V) × (get eq k xs ≡ some v)
                  × (stale v ≡ true)
                  × (get eq k (pop_front stale xs) ≡ none)))
          → (get eq k (pop_front stale xs)
              ≡ (if eq.test k x.key then some x.value else get eq k xs))
            ⊎ ((v : V) × ((if eq.test k x.key then some x.value else get eq k xs) ≡ some v)
                × (stale v ≡ true)
                × (get eq k (pop_front stale xs) ≡ none))
      popped (inl t) e rest =
          rw t (inr (x.value, refl, e, absent_pop_front stale k xs (test_false x k xs d.0 t)))
      popped (inr t) e rest = rw t rest

live-Above :
    {K V : Type 0} (rank : Item K V → ℕ) (P : Item K V → Type 0) (stale : V → Bool) (x : Item K V)
    (xs : List (Item K V))
    → ((x y : Item K V) → rank x ≤ rank y → P x → P y → stale y.value ≡ true → stale x.value ≡ true)
    → stale x.value ≡ false
    → P x
    → Above rank (rank x) xs
    → All P xs
    → All (λ y. stale y.value ≡ false) xs
live-Above rank P stale x [] k e p a b = tt
live-Above rank P stale x (y ∷ ys) k e p a b =
    ground (arith, k x y a.0 p b.0, live-Above rank P stale x ys k e p a.1 b.1)

module _ {K V : Type 0} (eq : KeyTest K) (P : Item K V → Type 0) where
  pub All-pop : (k : K) (xs : List (Item K V)) → All P xs → All P (pop eq k xs)
  unfolding pop
  All-pop k [] a = tt
  All-pop k (x ∷ xs) a = ground (arith, All-pop k xs a.1)

  pub All-put :
      (k : K) (v : V) (xs : List (Item K V))
      → P record { key = k; value = v }
      → All P xs
      → All P (put eq k v xs)
  unfolding put
  All-put k v [] h a = (h, tt)
  All-put k v (x ∷ xs) h a = ground (arith, All-put k v xs h a.1)

  pub All-put_last :
      (k : K) (v : V) (xs : List (Item K V))
      → P record { key = k; value = v }
      → All P xs
      → All P (put_last eq k v xs)
  unfolding put_last
  All-put_last k v xs h a = All-append P (pop eq k xs) _ (All-pop k xs a) (h, tt)

  pub All-pop_front :
      (stale : V → Bool) (xs : List (Item K V)) → All P xs → All P (pop_front stale xs)
  unfolding pop_front
  All-pop_front stale [] a = tt
  All-pop_front stale (x ∷ xs) a = ground (arith, All-pop_front stale xs a.1)

  -- What is found satisfies what all items do.
  pub All-get :
      (k : K) (v : V) (xs : List (Item K V))
      → All P xs
      → get eq k xs ≡ some v
      → P record { key = k; value = v }
  unfolding get
  All-get k v [] a h = cc
  All-get k v (x ∷ xs) a h = ground (arith, All-get k v xs a.1, eq.test_eq k x.key)

module _ {K V : Type 0} (eq : KeyTest K) (rank : Item K V → ℕ) where
  pub pop-Ascends : (k : K) (xs : List (Item K V)) → Ascends rank xs → Ascends rank (pop eq k xs)
  unfolding pop
  pop-Ascends k [] s = tt
  pop-Ascends k (x ∷ xs) s =
      ground (arith, pop-Ascends k xs s.1, All-pop eq (λ y. rank x ≤ rank y) k xs s.0)

  append-Ascends :
      (x : Item K V) (xs : List (Item K V))
      → All (λ y. rank y ≤ rank x) xs
      → Ascends rank xs
      → Ascends rank (xs ++ x ∷ [])
  append-Ascends x [] a s = (tt, tt)
  append-Ascends x (y ∷ ys) a s =
      (All-append (λ z. rank y ≤ rank z) ys (x ∷ []) s.0 (a.0, tt), append-Ascends x ys a.1 s.1)

  -- A new item of the largest rank keeps the order at the end.
  pub put_last-Ascends :
      (k : K) (v : V) (xs : List (Item K V))
      → All (λ y. rank y ≤ rank record { key = k; value = v }) xs
      → Ascends rank xs
      → Ascends rank (put_last eq k v xs)
  unfolding put_last
  put_last-Ascends k v xs a s =
      append-Ascends record { key = k; value = v } (pop eq k xs) (All-pop eq _ k xs a)
        (pop-Ascends k xs s)

  pub pop_front-Ascends :
      (stale : V → Bool) (xs : List (Item K V))
      → Ascends rank xs
      → Ascends rank (pop_front stale xs)
  unfolding pop_front
  pop_front-Ascends stale [] s = tt
  pop_front-Ascends stale (x ∷ xs) s = ground (arith, pop_front-Ascends stale xs s.1)

  Above-put :
      (k : K) (v w : V) (n : ℕ) (xs : List (Item K V))
      → get eq k xs ≡ some w
      → rank record { key = k; value = v } ≡ rank record { key = k; value = w }
      → Above rank n xs
      → Above rank n (put eq k v xs)
  unfolding put get
  Above-put k v w n [] g e a = cc
  Above-put k v w n (x ∷ xs) g e a =
      ground (arith, Above-put k v w n xs, a.1, a.0, eq.test_eq k x.key)

  -- A value of the same rank keeps the order in its place.
  pub put-Ascends :
      (k : K) (v w : V) (xs : List (Item K V))
      → get eq k xs ≡ some w
      → rank record { key = k; value = v } ≡ rank record { key = k; value = w }
      → Ascends rank xs
      → Ascends rank (put eq k v xs)
  unfolding put get
  put-Ascends k v w [] g e s = cc
  put-Ascends k v w (x ∷ xs) g e s =
      ground (arith, put-Ascends k v w xs, eq.test_eq k x.key, Above-put k v w (rank x) xs)

select_live :
    {K V : Type 0} (stale : V → Bool) (xs : List (Item K V))
    → All (λ x. stale x.value ≡ false) xs
    → select_where (λ x. not (stale x.value)) xs ≡ xs
unfolding select_where
select_live stale [] a = refl
select_live stale (x ∷ xs) a = ground (arith, select_live stale xs a.1)

-- Where the stale items are those of the least ranks, popping from the front finds them all. `P` is
-- what is known of the items.
pub pop_front-eq-select :
    {K V : Type 0} (rank : Item K V → ℕ) (P : Item K V → Type 0) (stale : V → Bool)
    → ((x y : Item K V) → rank x ≤ rank y → P x → P y → stale y.value ≡ true → stale x.value ≡ true)
    → (xs : List (Item K V)) → Ascends rank xs
    → All P xs
    → pop_front stale xs ≡ select_where (λ x. not (stale x.value)) xs
unfolding pop_front select_where
pop_front-eq-select rank P stale k [] s a = refl
pop_front-eq-select rank P stale k (x ∷ xs) s a = elim (Bool-cases (stale x.value)) [
  | inl e ↦ rw e (pop_front-eq-select rank P stale k xs s.1 a.1)
  | inr e ↦ rw (e, select_live stale xs (live-Above rank P stale x xs k e a.0 s.0 a.1)) refl
]
