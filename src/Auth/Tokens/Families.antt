-- ===== src/Auth/Tokens/Families.antt =====
-- A family of refresh tokens that was revoked.
use quantumsentinel_web.Prelude.{
  ℕ, ◌≤◌, ◌≡◌, ◌≢◌, refl, arith, Bool, true, false, ltb, ◌==◌, some, List, [], ◌∷◌, All, All-append,
  All-update_where, update_where, count_where, first_where, update_first, if_both, Bool-cases,
  Option-cases, inl, inr,
}
use quantumsentinel_web.Auth.Tokens.{
  RefreshToken, Lifetimes, Rotation, declined, has_hash, in_family, revoked, used, revoke_family,
  family_created_at, too_old, new_token, insert_token, or_rows, create_refresh_token, exchange,
  rotate_found, rotate_refresh_token, revoke_refresh_token, live_of, revoke_user_refresh_tokens,
  Request, create, rotate, revoke, revoke_user, serve, serve_all,
}

-- Every token of the family is revoked.
abbrev Ended : ℕ → RefreshToken → Type 0
Ended family r = r.family_id ≡ family → r.is_revoked ≡ true

-- No login in `qs` draws the family: uuids do not repeat.
unfoldable pub Fresh : ℕ → List Request → Type 0
Fresh family [] = Unit
Fresh family (create user raw drawn now ∷ qs) = (drawn ≢ family) × Fresh family qs
Fresh family (rotate raw new_raw now ∷ qs) = Fresh family qs
Fresh family (revoke raw ∷ qs) = Fresh family qs
Fresh family (revoke_user user ∷ qs) = Fresh family qs

All-update_first :
    (P : RefreshToken → Type 0) (p : RefreshToken → Bool) (f : RefreshToken → RefreshToken)
    → ((r : RefreshToken) → P r → P (f r))
    → (rows : List RefreshToken) → All P rows
    → All P (update_first p f rows)
unfolding update_first
All-update_first P p f k [] a = tt
All-update_first P p f k (r ∷ rows) a =
    if_both (All P) (p r) (λ e. (k r a.0, a.1)) (λ e. (a.0, All-update_first P p f k rows a.1))

All-found :
    (P : RefreshToken → Type 0) (p : RefreshToken → Bool) (r : RefreshToken)
    (rows : List RefreshToken)
    → All P rows
    → first_where p rows ≡ some r
    → P r
unfolding first_where
All-found P p r [] a e = absurd (ground arith)
All-found P p r (x ∷ xs) a e = elim (Bool-cases (p x)) [
  | inl b ↦ ground (arith, a.0, rw b at e)
  | inr b ↦ All-found P p r xs a.1 (rw b at e)
]

Ended-revoked : (family : ℕ) (r : RefreshToken) → Ended family (revoked r)
Ended-revoked family r h = refl

Ended-used : (family : ℕ) (r : RefreshToken) → Ended family r → Ended family (used r)
Ended-used family r h = h

-- A revocation ends the family and no other that has ended before.
revoke_family-Ended :
    (family : ℕ) (rows : List RefreshToken) → All (Ended family) (revoke_family family rows)
unfolding revoke_family update_where
revoke_family-Ended family [] = tt
revoke_family-Ended family (r ∷ rows) = (
  if_both (Ended family) (in_family family r) (λ e h. refl) (λ e h. absurd (ground (arith, e, h))),
  revoke_family-Ended family rows,
)

revoke_other-Ended :
    (family other : ℕ) (rows : List RefreshToken)
    → All (Ended family) rows
    → All (Ended family) (revoke_family other rows)
unfolding revoke_family
revoke_other-Ended family other rows a =
    All-update_where (Ended family) (in_family other) revoked (λ r e h k. refl) rows a

module _ (hash : ℕ → ℕ) (lifetimes : Lifetimes) where
  insert_or-Ended :
      (family : ℕ) (r : RefreshToken) (old rows : List RefreshToken)
      → Ended family r
      → All (Ended family) old
      → All (Ended family) rows
      → All (Ended family) (or_rows old (insert_token hash lifetimes r rows))
  unfolding or_rows insert_token
  insert_or-Ended family r old rows h o a =
      elim (Bool-cases (count_where (has_hash r.token_hash) rows == 0)) [
        | inl e ↦ rw e (All-append (Ended family) rows (r ∷ []) a (h, tt))
        | inr e ↦ rw e o
      ]

  exchange-Ended :
      (family raw new_raw now : ℕ) (rows : List RefreshToken) (r : RefreshToken)
      → r.family_id ≢ family
      → All (Ended family) rows
      → All (Ended family) (exchange hash lifetimes raw new_raw now rows r).0
  unfolding exchange insert_token
  exchange-Ended family raw new_raw now rows r n a =
      let marked = update_first (has_hash (hash raw)) used rows in
      let kept =
        All-update_first (Ended family) (has_hash (hash raw)) used (Ended-used family) rows a in
      let token = new_token hash lifetimes r.user_id new_raw r.family_id now in
      elim (Bool-cases (count_where (has_hash token.token_hash) marked == 0)) [
        | inl e ↦
            rw e (All-append (Ended family) marked (token ∷ []) kept ((λ h. absurd (n h)), tt))
        | inr e ↦ rw e a
      ]

  -- What a rotation does where every token of the family is revoked: it keeps it so, and declines
  -- a token of the family.
  pub rotate-Ended :
      (family raw new_raw now : ℕ) (rows : List RefreshToken)
      → All (Ended family) rows
      → All (Ended family) (rotate_refresh_token hash lifetimes raw new_raw now rows).0
  unfolding rotate_refresh_token rotate_found
  rotate-Ended family raw new_raw now rows a =
      elim (Option-cases (first_where (has_hash (hash raw)) rows)) [
        | inl e ↦ rw e a
        | inr (r, e) ↦
            let P : List RefreshToken × Rotation → Type 0 = λ t. All (Ended family) t.0 in
            let ended = All-found (Ended family) _ r rows a e in
            let ending = revoke_other-Ended family r.family_id rows a in
            rw e (
              if_both P (ltb r.expires_at now) (λ b. a)
                (λ b.
                  if_both P r.is_revoked (λ c. a)
                    (λ c.
                      if_both P r.is_used (λ d. ending)
                        (λ d.
                          if_both P
                            (too_old lifetimes.absolute now (family_created_at r.family_id rows))
                            (λ f. ending)
                            (λ f.
                              exchange-Ended family raw new_raw now rows r
                                (λ h. absurd (ground (arith, ended h, c))) a)))))
      ]

  ended_declined :
      (raw new_raw now : ℕ) (rows : List RefreshToken) (r : RefreshToken)
      → first_where (has_hash (hash raw)) rows ≡ some r
      → r.is_revoked ≡ true
      → (rotate_refresh_token hash lifetimes raw new_raw now rows).1 ≡ declined
  unfolding rotate_refresh_token rotate_found
  ended_declined raw new_raw now rows r e u = rw (e, u) (ground arith)

  revoke-Ended :
      (family raw : ℕ) (rows : List RefreshToken)
      → All (Ended family) rows
      → All (Ended family) (revoke_refresh_token hash lifetimes raw rows).0
  unfolding revoke_refresh_token
  revoke-Ended family raw rows a = elim (Option-cases (first_where (has_hash (hash raw)) rows)) [
    | inl e ↦ rw e a
    | inr (r, e) ↦
        rw e (All-update_first (Ended family) (has_hash (hash raw)) revoked (λ x h k. refl) rows a)
  ]

  serve_all-Ended :
      (family : ℕ) (qs : List Request) (rows : List RefreshToken)
      → Fresh family qs
      → All (Ended family) rows
      → All (Ended family) (serve_all hash lifetimes qs rows)
  unfolding serve_all serve Fresh create_refresh_token revoke_user_refresh_tokens
  serve_all-Ended family [] rows f a = a
  serve_all-Ended family (create user raw drawn now ∷ qs) rows f a =
      serve_all-Ended family qs (serve hash lifetimes (create user raw drawn now) rows) f.1 (
        insert_or-Ended family (new_token hash lifetimes user raw drawn now) rows rows
          (λ h. absurd (f.0 h)) a a)
  serve_all-Ended family (rotate raw new_raw now ∷ qs) rows f a =
      serve_all-Ended family qs (serve hash lifetimes (rotate raw new_raw now) rows) f
        (rotate-Ended family raw new_raw now rows a)
  serve_all-Ended family (revoke raw ∷ qs) rows f a =
      serve_all-Ended family qs (serve hash lifetimes (revoke raw) rows) f
        (revoke-Ended family raw rows a)
  serve_all-Ended family (revoke_user user ∷ qs) rows f a =
      serve_all-Ended family qs (serve hash lifetimes (revoke_user user) rows) f
        (All-update_where (Ended family) (live_of user) revoked (λ r e h k. refl) rows a)

  reuse-Ended :
      (raw new_raw now : ℕ) (rows : List RefreshToken) (r : RefreshToken)
      → first_where (has_hash (hash raw)) rows ≡ some r
      → r.is_used ≡ true
      → r.is_revoked ≡ false
      → now ≤ r.expires_at
      → All (Ended r.family_id) (rotate_refresh_token hash lifetimes raw new_raw now rows).0
  unfolding rotate_refresh_token rotate_found
  reuse-Ended raw new_raw now rows r e u v h =
      let live : ltb r.expires_at now ≡ false = ground (arith, h) in
      rw (e, live, v, u) (revoke_family-Ended r.family_id rows)

-- Reuse of a token ends its family: where a used token that has neither expired nor been revoked is
-- presented again, every later rotation of any token of its family is declined, whatever requests
-- come in between, as long as no login draws the same family id.
pub reuse_ends_family :
    (hash : ℕ → ℕ) (lifetimes : Lifetimes) (rows : List RefreshToken) (raw new_raw now : ℕ)
    (r : RefreshToken) (qs : List Request) (raw2 new_raw2 later : ℕ) (s : RefreshToken)
    → first_where (has_hash (hash raw)) rows ≡ some r
    → r.is_used ≡ true
    → r.is_revoked ≡ false
    → now ≤ r.expires_at
    → Fresh r.family_id qs
    → first_where
        (has_hash (hash raw2))
        (serve_all hash lifetimes qs (rotate_refresh_token hash lifetimes raw new_raw now rows).0)
      ≡ some s
    → s.family_id ≡ r.family_id
    → (rotate_refresh_token hash lifetimes raw2 new_raw2 later (
        serve_all hash lifetimes qs (rotate_refresh_token hash lifetimes raw new_raw now rows).0)).1
      ≡ declined
reuse_ends_family hash lifetimes rows raw new_raw now r qs raw2 new_raw2 later s e u v h f found
      same =
    let after =
      serve_all hash lifetimes qs (rotate_refresh_token hash lifetimes raw new_raw now rows).0 in
    let ended =
      serve_all-Ended hash lifetimes r.family_id qs _ f
        (reuse-Ended hash lifetimes raw new_raw now rows r e u v h) in
    ended_declined hash lifetimes raw2 new_raw2 later after s found
      (All-found (Ended r.family_id) _ s after ended found same)
