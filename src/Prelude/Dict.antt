-- ===== src/Prelude/Dict.antt =====
-- An OrderedDict: the items in their order, each key at most once. Writing a key that is present
-- keeps its place, a new key goes to the end.
use Prim.Native.Nat.{ℕ}
pub mod Order
use mathlib.Core.Path.{◌≡◌, refl}
use mathlib.Core.Bool.{Bool, true, false, ◌||◌}
use mathlib.Core.Option.{Option, none, some}
use mathlib.Core.List.{List, [], ◌∷◌, ◌++◌}
use native.Mathlib.Omega.{arith}
use quantumsentinel_web.Prelude.Tests.{if◌then◌else◌, Bool-cases}
use quantumsentinel_web.Prelude.Table.{All, select_where}

pub record Item (K V : Type 0) : Type 0 where
  pub key : K
  pub value : V

-- Equality of keys as a test that decides it.
pub record KeyTest (K : Type 0) : Type 0 where
  pub test : K → K → Bool
  pub test_refl : (k : K) → test k k ≡ true
  pub test_eq : (j k : K) → test j k ≡ true → j ≡ k

module _ {K V : Type 0} (eq : KeyTest K) where
  -- d.get(k)
  unfoldable pub get : K → List (Item K V) → Option V
  get k [] = none
  get k (x ∷ xs) = if eq.test k x.key then some x.value else get k xs

  -- d.pop(k, None)
  unfoldable pub pop : K → List (Item K V) → List (Item K V)
  pop k [] = []
  pop k (x ∷ xs) = let rest = pop k xs in if eq.test k x.key then rest else x ∷ rest

  -- d[k] = v
  unfoldable pub put : K → V → List (Item K V) → List (Item K V)
  put k v [] = record { key = k; value = v } ∷ []
  put k v (x ∷ xs) =
      let rest = put k v xs in
      if eq.test k x.key then record { key = k; value = v } ∷ xs else x ∷ rest

  -- d[k] = v and then d.move_to_end(k)
  unfoldable pub put_last : K → V → List (Item K V) → List (Item K V)
  unfolding pop
  put_last k v xs = pop k xs ++ record { key = k; value = v } ∷ []

  unfoldable pub put_or_pop : K → Option V → List (Item K V) → List (Item K V)
  unfolding put pop
  put_or_pop k none xs = pop k xs
  put_or_pop k (some v) xs = put k v xs

-- Items are popped from the front while they are stale.
unfoldable pub pop_front : {K V : Type 0} → (V → Bool) → List (Item K V) → List (Item K V)
pop_front stale [] = []
pop_front stale (x ∷ xs) = let rest = pop_front stale xs in if stale x.value then rest else x ∷ xs

module _ {K V : Type 0} (eq : KeyTest K) where
  pub get-pop_self : (k : K) (xs : List (Item K V)) → get eq k (pop eq k xs) ≡ none
  unfolding get pop
  get-pop_self k [] = refl
  get-pop_self k (x ∷ xs) = ground (arith, get-pop_self k xs)

  pub get-pop_other :
      (j k : K) (xs : List (Item K V)) → eq.test j k ≡ false → get eq j (pop eq k xs) ≡ get eq j xs
  unfolding get pop
  get-pop_other j k [] h = refl
  get-pop_other j k (x ∷ xs) h = ground (arith, get-pop_other j k xs h, eq.test_eq k x.key)

  pub get-put_self : (k : K) (v : V) (xs : List (Item K V)) → get eq k (put eq k v xs) ≡ some v
  unfolding get put
  get-put_self k v [] = ground (arith, eq.test_refl k)
  get-put_self k v (x ∷ xs) = ground (arith, eq.test_refl k, get-put_self k v xs)

  pub get-put_other :
      (j k : K) (v : V) (xs : List (Item K V))
      → eq.test j k ≡ false
      → get eq j (put eq k v xs) ≡ get eq j xs
  unfolding get put
  get-put_other j k v [] h = ground arith
  get-put_other j k v (x ∷ xs) h = ground (arith, get-put_other j k v xs h, eq.test_eq k x.key)

  pub get-append_last :
      (j k : K) (v : V) (xs : List (Item K V))
      → get eq j xs ≡ none
      → get eq j (xs ++ record { key = k; value = v } ∷ []) ≡ (if eq.test j k then some v else none)
  unfolding get
  get-append_last j k v [] h = refl
  get-append_last j k v (x ∷ xs) h = ground (arith, get-append_last j k v xs)

  get-append_other :
      (j k : K) (v : V) (xs : List (Item K V))
      → eq.test j k ≡ false
      → get eq j (xs ++ record { key = k; value = v } ∷ []) ≡ get eq j xs
  unfolding get
  get-append_other j k v [] h = ground arith
  get-append_other j k v (x ∷ xs) h = ground (arith, get-append_other j k v xs)

  pub get-put_last_self :
      (k : K) (v : V) (xs : List (Item K V)) → get eq k (put_last eq k v xs) ≡ some v
  unfolding put_last
  get-put_last_self k v xs =
      ground (arith, get-append_last k k v (pop eq k xs), get-pop_self k xs, eq.test_refl k)

  pub get-put_last_other :
      (j k : K) (v : V) (xs : List (Item K V))
      → eq.test j k ≡ false
      → get eq j (put_last eq k v xs) ≡ get eq j xs
  unfolding put_last
  get-put_last_other j k v xs h =
      ground (arith, get-append_other j k v (pop eq k xs) h, get-pop_other j k xs h)
