-- ===== src/Auth/Tokens/Reuse.antt =====
-- What is granted to a token that was used, and to the family of one that was used twice.
use quantumsentinel_web.Prelude.{
  ℕ, ◌≡◌, refl, arith, true, ltb, ◌==◌, some, List, [], ◌∷◌, count_where, first_where, update_first,
  if_both, Bool-cases, Option-cases, inl, inr,
}
use quantumsentinel_web.Prelude.First.{
  first_where-append, first_where-update_first, first_where-satisfies,
}
use quantumsentinel_web.Auth.Tokens.{
  RefreshToken, Lifetimes, Rotation, rotated, declined, has_hash, used, family_created_at, too_old,
  new_token, insert_token, exchange, rotate_found, rotate_refresh_token, Request, serve_all,
}
use quantumsentinel_web.Auth.Tokens.Ages.{serve_all-Extends, found_again}

module _ (hash : ℕ → ℕ) (lifetimes : Lifetimes) where
  exchange-used :
      (raw new_raw now : ℕ) (rows : List RefreshToken) (r : RefreshToken) (new user family : ℕ)
      → first_where (has_hash (hash raw)) rows ≡ some r
      → (exchange hash lifetimes raw new_raw now rows r).1 ≡ rotated new user family
      → first_where (has_hash (hash raw)) (exchange hash lifetimes raw new_raw now rows r).0
        ≡ some (used r)
  unfolding exchange insert_token
  exchange-used raw new_raw now rows r new user family f e =
      let marked = update_first (has_hash (hash raw)) used rows in
      let token = new_token hash lifetimes r.user_id new_raw r.family_id now in
      let same : has_hash (hash raw) r ≡ true = first_where-satisfies _ r rows f in
      let found = first_where-update_first (has_hash (hash raw)) used r rows f same in
      let more = first_where-append (has_hash (hash raw)) (used r) marked (token ∷ []) found in
      elim (Bool-cases (count_where (has_hash token.token_hash) marked == 0)) [
        | inl b ↦ rw b more
        | inr b ↦ absurd (ground (arith, rw b at e))
      ]

  -- A rotation that succeeds leaves its token used.
  rotate_used :
      (raw new_raw now : ℕ) (rows : List RefreshToken) (new user family : ℕ)
      → (rotate_refresh_token hash lifetimes raw new_raw now rows).1 ≡ rotated new user family
      → (r : RefreshToken) × (first_where
            (has_hash (hash raw))
            (rotate_refresh_token hash lifetimes raw new_raw now rows).0
          ≡ some r)
        × (r.is_used ≡ true)
  unfolding rotate_refresh_token rotate_found
  rotate_used raw new_raw now rows new user family =
      elim (Option-cases (first_where (has_hash (hash raw)) rows)) [
        | inl e ↦ rw e (λ h. absurd (ground arith))
        | inr (r, e) ↦
            let P : List RefreshToken × Rotation → Type 0 = λ t.
              t.1 ≡ rotated new user family
              → (s : RefreshToken) × (first_where (has_hash (hash raw)) t.0 ≡ some s)
                × (s.is_used ≡ true) in
            rw e (
              if_both P (ltb r.expires_at now) (λ a h. absurd (ground arith))
                (λ a.
                  if_both P r.is_revoked (λ b h. absurd (ground arith))
                    (λ b.
                      if_both P r.is_used (λ c h. absurd (ground arith))
                        (λ c.
                          if_both P
                            (too_old lifetimes.absolute now (family_created_at r.family_id rows))
                            (λ d h. absurd (ground arith))
                            (λ d h. (
                              used r,
                              exchange-used raw new_raw now rows r new user family e h,
                              refl,
                            ))))))
      ]

  -- A used token gets nothing.
  used_declined :
      (raw new_raw now : ℕ) (rows : List RefreshToken) (r : RefreshToken)
      → first_where (has_hash (hash raw)) rows ≡ some r
      → r.is_used ≡ true
      → (rotate_refresh_token hash lifetimes raw new_raw now rows).1 ≡ declined
  unfolding rotate_refresh_token rotate_found
  used_declined raw new_raw now rows r e u = rw (e, u) (ground arith)

-- A refresh token is exchanged at most once: after a rotation that succeeded, and any requests in
-- between, another rotation of the same token is declined.
pub rotated_once :
    (hash : ℕ → ℕ) (lifetimes : Lifetimes) (rows : List RefreshToken)
    (raw new_raw now new user family : ℕ) (qs : List Request) (new_raw2 later : ℕ)
    → (rotate_refresh_token hash lifetimes raw new_raw now rows).1 ≡ rotated new user family
    → (rotate_refresh_token hash lifetimes raw new_raw2 later (
        serve_all hash lifetimes qs (rotate_refresh_token hash lifetimes raw new_raw now rows).0)).1
      ≡ declined
rotated_once hash lifetimes rows raw new_raw now new user family qs new_raw2 later h =
    let before = (rotate_refresh_token hash lifetimes raw new_raw now rows).0 in
    let after = serve_all hash lifetimes qs before in
    let (r, found, u) = rotate_used hash lifetimes raw new_raw now rows new user family h in
    let (s, again, aged) =
      found_again (hash raw) r before after (serve_all-Extends hash lifetimes qs before) found in
    used_declined hash lifetimes raw new_raw2 later after s again (aged.1 u)
