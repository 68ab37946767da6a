-- ===== src/Auth/Tokens/Ages.antt =====
-- What requests leave of a token: its terms, and that it is used or revoked.
use quantumsentinel_web.Prelude.{
  ℕ, ◌≡◌, refl, arith, Bool, true, false, ltb, ◌==◌, some, List, [], ◌∷◌, ◌++◌, update_where,
  count_where, first_where, update_first, if_both, Bool-cases, Option-cases, inl, inr,
}
use quantumsentinel_web.Auth.Tokens.{
  RefreshToken, Lifetimes, Rotation, has_hash, in_family, revoked, used, revoke_family,
  family_created_at, too_old, new_token, insert_token, or_rows, create_refresh_token, exchange,
  rotate_found, rotate_refresh_token, revoke_refresh_token, live_of, revoke_user_refresh_tokens,
  Request, create, rotate, revoke, revoke_user, serve, serve_all,
}

-- The same token later: its terms are kept, and a flag that is set stays set.
abbrev pub Ages : RefreshToken → RefreshToken → Type 0
Ages r s =
    ((r.token_hash ≡ s.token_hash)
      × (r.user_id ≡ s.user_id)
      × (r.family_id ≡ s.family_id)
      × (r.created_at ≡ s.created_at)
      × (r.expires_at ≡ s.expires_at))
    × (r.is_used ≡ true → s.is_used ≡ true)
    × (r.is_revoked ≡ true → s.is_revoked ≡ true)

-- The rows of a table later: each in its place, and new ones behind them.
abbrev pub Extends : List RefreshToken → List RefreshToken → Type 0
Extends [] ys = Unit
Extends (x ∷ xs) [] = ⊥
Extends (x ∷ xs) (y ∷ ys) = Ages x y × Extends xs ys

Ages-refl : (r : RefreshToken) → Ages r r
Ages-refl r = ((refl, refl, refl, refl, refl), (λ e. e), λ e. e)

Ages-trans : (r s t : RefreshToken) → Ages r s → Ages s t → Ages r t
Ages-trans r s t h k = ground arith

pub Extends-refl : (xs : List RefreshToken) → Extends xs xs
Extends-refl [] = tt
Extends-refl (x ∷ xs) = (Ages-refl x, Extends-refl xs)

pub Extends-trans : (xs ys zs : List RefreshToken) → Extends xs ys → Extends ys zs → Extends xs zs
Extends-trans [] ys zs h k = tt
Extends-trans (x ∷ xs) [] zs h k = elim h [ ]
Extends-trans (x ∷ xs) (y ∷ ys) [] h k = elim k [ ]
Extends-trans (x ∷ xs) (y ∷ ys) (z ∷ zs) h k =
    (Ages-trans x y z h.0 k.0, Extends-trans xs ys zs h.1 k.1)

Extends-append : (xs ys zs : List RefreshToken) → Extends xs ys → Extends xs (ys ++ zs)
Extends-append [] ys zs h = tt
Extends-append (x ∷ xs) [] zs h = elim h [ ]
Extends-append (x ∷ xs) (y ∷ ys) zs h = (h.0, Extends-append xs ys zs h.1)

Extends-update_where :
    (p : RefreshToken → Bool) (f : RefreshToken → RefreshToken)
    → ((r : RefreshToken) → Ages r (f r))
    → (xs : List RefreshToken) → Extends xs (update_where p f xs)
unfolding update_where
Extends-update_where p f k [] = tt
Extends-update_where p f k (x ∷ xs) =
    (if_both (Ages x) (p x) (λ e. k x) (λ e. Ages-refl x), Extends-update_where p f k xs)

Extends-update_first :
    (p : RefreshToken → Bool) (f : RefreshToken → RefreshToken)
    → ((r : RefreshToken) → Ages r (f r))
    → (xs : List RefreshToken) → Extends xs (update_first p f xs)
unfolding update_first
Extends-update_first p f k [] = tt
Extends-update_first p f k (x ∷ xs) =
    if_both (Extends (x ∷ xs)) (p x) (λ e. (k x, Extends-refl xs))
      (λ e. (Ages-refl x, Extends-update_first p f k xs))

Ages-revoked : (r : RefreshToken) → Ages r (revoked r)
Ages-revoked r = ground arith

Ages-used : (r : RefreshToken) → Ages r (used r)
Ages-used r = ground arith

-- A token is found again, older.
pub found_again :
    (h : ℕ) (r : RefreshToken) (xs ys : List RefreshToken)
    → Extends xs ys
    → first_where (has_hash h) xs ≡ some r
    → (s : RefreshToken) × (first_where (has_hash h) ys ≡ some s) × Ages r s
unfolding first_where
found_again h r [] ys k e = absurd (ground arith)
found_again h r (x ∷ xs) [] k e = elim k [ ]
found_again h r (x ∷ xs) (y ∷ ys) k e = elim (Bool-cases (has_hash h x)) [
  | inl b ↦
      let b2 : has_hash h y ≡ true = ground (arith, k.0) in rw b2 (y, refl, ground (arith, k.0))
  | inr b ↦
      let b2 : has_hash h y ≡ false = ground (arith, k.0) in
      rw b2 (found_again h r xs ys k.1 (rw b at e))
]

module _ (hash : ℕ → ℕ) (lifetimes : Lifetimes) where
  insert-Extends :
      (r : RefreshToken) (xs rows written : List RefreshToken)
      → Extends xs rows
      → insert_token hash lifetimes r rows ≡ some written
      → Extends xs written
  unfolding insert_token
  insert-Extends r xs rows written h e =
      elim (Bool-cases (count_where (has_hash r.token_hash) rows == 0)) [
        | inl b ↦ ground (arith, Extends-append xs rows (r ∷ []) h)
        | inr b ↦ absurd (ground arith)
      ]

  insert_or-Extends :
      (r : RefreshToken) (xs rows : List RefreshToken)
      → Extends xs rows
      → Extends xs (or_rows rows (insert_token hash lifetimes r rows))
  unfolding or_rows
  insert_or-Extends r xs rows h = elim (Option-cases (insert_token hash lifetimes r rows)) [
    | inl e ↦ rw e h
    | inr (written, e) ↦ rw e (insert-Extends r xs rows written h e)
  ]

  exchange-Extends :
      (raw new_raw now : ℕ) (rows : List RefreshToken) (r : RefreshToken)
      → Extends rows (exchange hash lifetimes raw new_raw now rows r).0
  unfolding exchange
  exchange-Extends raw new_raw now rows r =
      let marked = update_first (has_hash (hash raw)) used rows in
      let token = new_token hash lifetimes r.user_id new_raw r.family_id now in
      elim (Option-cases (insert_token hash lifetimes token marked)) [
        | inl e ↦ rw e (Extends-refl rows)
        | inr (written, e) ↦ rw e (
            insert-Extends token rows marked written
              (Extends-update_first (has_hash (hash raw)) used Ages-used rows) e)
      ]

  revoke_family-Extends :
      (family : ℕ) (rows : List RefreshToken) → Extends rows (revoke_family family rows)
  unfolding revoke_family
  revoke_family-Extends family rows =
      Extends-update_where (in_family family) revoked Ages-revoked rows

  rotate-Extends :
      (raw new_raw now : ℕ) (rows : List RefreshToken)
      → Extends rows (rotate_refresh_token hash lifetimes raw new_raw now rows).0
  unfolding rotate_refresh_token rotate_found
  rotate-Extends raw new_raw now rows =
      elim (Option-cases (first_where (has_hash (hash raw)) rows)) [
        | inl e ↦ rw e (Extends-refl rows)
        | inr (r, e) ↦
            let P : List RefreshToken × Rotation → Type 0 = λ t. Extends rows t.0 in
            let ending = revoke_family-Extends r.family_id rows in
            rw e (
              if_both P (ltb r.expires_at now) (λ a. Extends-refl rows)
                (λ a.
                  if_both P r.is_revoked (λ b. Extends-refl rows)
                    (λ b.
                      if_both P r.is_used (λ c. ending)
                        (λ c.
                          if_both P
                            (too_old lifetimes.absolute now (family_created_at r.family_id rows))
                            (λ d. ending) (λ d. exchange-Extends raw new_raw now rows r)))))
      ]

  revoke-Extends :
      (raw : ℕ) (rows : List RefreshToken)
      → Extends rows (revoke_refresh_token hash lifetimes raw rows).0
  unfolding revoke_refresh_token
  revoke-Extends raw rows = elim (Option-cases (first_where (has_hash (hash raw)) rows)) [
    | inl e ↦ rw e (Extends-refl rows)
    | inr (r, e) ↦ rw e (Extends-update_first (has_hash (hash raw)) revoked Ages-revoked rows)
  ]

  serve-Extends :
      (q : Request) (rows : List RefreshToken) → Extends rows (serve hash lifetimes q rows)
  unfolding serve create_refresh_token revoke_user_refresh_tokens
  serve-Extends (create user raw family now) rows =
      insert_or-Extends (new_token hash lifetimes user raw family now) rows rows (Extends-refl rows)
  serve-Extends (rotate raw new_raw now) rows = rotate-Extends raw new_raw now rows
  serve-Extends (revoke raw) rows = revoke-Extends raw rows
  serve-Extends (revoke_user user) rows =
      Extends-update_where (live_of user) revoked Ages-revoked rows

  -- Whatever the requests, every row stays in its place with its terms, a used token stays used and
  -- a revoked one revoked.
  pub serve_all-Extends :
      (qs : List Request) (rows : List RefreshToken)
      → Extends rows (serve_all hash lifetimes qs rows)
  unfolding serve_all
  serve_all-Extends [] rows = Extends-refl rows
  serve_all-Extends (q ∷ qs) rows =
      let served = serve hash lifetimes q rows in
      Extends-trans rows served (serve_all hash lifetimes qs served) (serve-Extends q rows)
        (serve_all-Extends qs served)
