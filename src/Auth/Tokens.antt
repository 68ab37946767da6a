-- ===== src/Auth/Tokens.antt =====
-- Refresh tokens (create_refresh_token, rotate_refresh_token and the revocations). A time is a
-- number of microseconds; each request reads its clock once. The raw token and the family that a
-- request draws are its arguments; `hash` is the SHA-256 of a raw token.
pub mod Ages
pub mod Reuse
pub mod Families
use quantumsentinel_web.Prelude.{
  ℕ, ◌+◌, ◌-◌, ◌*◌, min, Bool, true, false, not, ◌&&◌, ltb, ◌==◌, if◌then◌else◌, Option, none, some,
  List, [], ◌∷◌, ◌++◌, update_where, count_where, first_where, update_first,
}

-- A row of refresh_tokens.
pub record RefreshToken : Type 0 where
  pub user_id : ℕ
  pub token_hash : ℕ
  pub family_id : ℕ
  pub is_used : Bool
  pub is_revoked : Bool
  pub created_at : ℕ
  pub expires_at : ℕ

-- REFRESH_TOKEN_SECONDS and REFRESH_ABSOLUTE_SESSION_SECONDS, in microseconds.
pub record Lifetimes : Type 0 where
  pub sliding : ℕ
  pub absolute : ℕ

-- `rotated` has the new raw token, the user and the family. At the unique constraint on the hash
-- the commit raises, and nothing is written.
pub data Rotation : Type 0 where
  rotated : ℕ → ℕ → ℕ → Rotation
  declined : Rotation
  integrity_error : Rotation

abbrev pub has_hash : ℕ → RefreshToken → Bool
has_hash h r = r.token_hash == h

abbrev pub in_family : ℕ → RefreshToken → Bool
in_family family r = r.family_id == family

abbrev pub revoked : RefreshToken → RefreshToken
revoked r = record r { is_revoked = true }

abbrev pub used : RefreshToken → RefreshToken
used r = record r { is_used = true }

-- _revoke_family
unfoldable pub revoke_family : ℕ → List RefreshToken → List RefreshToken
unfolding update_where
revoke_family family rows = update_where (in_family family) revoked rows

abbrev earlier : Option ℕ → ℕ → Option ℕ
earlier none t = some t
earlier (some s) t = some (min s t)

-- SELECT min(created_at) over the rows of a family.
unfoldable pub family_created_at : ℕ → List RefreshToken → Option ℕ
family_created_at family [] = none
family_created_at family (r ∷ rows) =
    let rest = family_created_at family rows in
    if in_family family r then earlier rest r.created_at else rest

abbrev pub too_old : ℕ → ℕ → Option ℕ → Bool
too_old absolute now none = false
too_old absolute now (some created) = ltb absolute (now - created)

unfoldable pub or_rows : List RefreshToken → Option (List RefreshToken) → List RefreshToken
or_rows rows none = rows
or_rows rows (some written) = written

module _ (hash : ℕ → ℕ) (lifetimes : Lifetimes) where
  abbrev pub new_token : ℕ → ℕ → ℕ → ℕ → RefreshToken
  new_token user raw family now = record {
    user_id = user;
    token_hash = hash raw;
    family_id = family;
    is_used = false;
    is_revoked = false;
    created_at = now;
    expires_at = now + lifetimes.sliding;
  }

  -- `none` is the commit that raises at the unique constraint.
  unfoldable pub insert_token : RefreshToken → List RefreshToken → Option (List RefreshToken)
  unfolding count_where
  insert_token r rows =
      if count_where (has_hash r.token_hash) rows == 0 then some (rows ++ r ∷ []) else none

  unfoldable pub create_refresh_token : ℕ → ℕ → ℕ → ℕ → List RefreshToken → List RefreshToken
  unfolding insert_token or_rows
  create_refresh_token user raw family now rows =
      or_rows rows (insert_token (new_token user raw family now) rows)

  abbrev committed :
      List RefreshToken
      → RefreshToken
      → ℕ
      → Option (List RefreshToken)
      → List RefreshToken × Rotation
  committed rows r new_raw none = (rows, integrity_error)
  committed rows r new_raw (some written) = (written, rotated new_raw r.user_id r.family_id)

  -- The token is marked as used and the new one is added, in one transaction.
  unfoldable pub exchange :
      ℕ → ℕ → ℕ → List RefreshToken → RefreshToken → List RefreshToken × Rotation
  unfolding insert_token update_first
  exchange raw new_raw now rows r = committed rows r new_raw (
      insert_token (new_token r.user_id new_raw r.family_id now)
        (update_first (has_hash (hash raw)) used rows))

  unfoldable pub rotate_found :
      ℕ → ℕ → ℕ → List RefreshToken → Option RefreshToken → List RefreshToken × Rotation
  unfolding revoke_family family_created_at exchange
  rotate_found raw new_raw now rows none = (rows, declined)
  rotate_found raw new_raw now rows (some r) =
      if ltb r.expires_at now
      then (rows, declined)
      else if r.is_revoked
      then (rows, declined)
      else if r.is_used
      then (revoke_family r.family_id rows, declined)
      else if too_old lifetimes.absolute now (family_created_at r.family_id rows)
      then (revoke_family r.family_id rows, declined)
      else exchange raw new_raw now rows r

  unfoldable pub rotate_refresh_token : ℕ → ℕ → ℕ → List RefreshToken → List RefreshToken × Rotation
  unfolding rotate_found first_where
  rotate_refresh_token raw new_raw now rows =
      rotate_found raw new_raw now rows (first_where (has_hash (hash raw)) rows)

  abbrev revoke_found : ℕ → List RefreshToken → Option RefreshToken → List RefreshToken × Bool
  revoke_found h rows none = (rows, false)
  revoke_found h rows (some r) = (update_first (has_hash h) revoked rows, true)

  unfoldable pub revoke_refresh_token : ℕ → List RefreshToken → List RefreshToken × Bool
  unfolding first_where update_first
  revoke_refresh_token raw rows =
      revoke_found (hash raw) rows (first_where (has_hash (hash raw)) rows)

abbrev pub live_of : ℕ → RefreshToken → Bool
live_of user r = r.user_id == user && not r.is_revoked

-- The rows, and how many were revoked.
unfoldable pub revoke_user_refresh_tokens : ℕ → List RefreshToken → List RefreshToken × ℕ
unfolding update_where count_where
revoke_user_refresh_tokens user rows =
    (update_where (live_of user) revoked rows, count_where (live_of user) rows)

-- What requests do, in the order in which their transactions commit: `create user raw family now`,
-- `rotate raw new_raw now`, and the revocations of one token and of a user's tokens.
pub data Request : Type 0 where
  create : ℕ → ℕ → ℕ → ℕ → Request
  rotate : ℕ → ℕ → ℕ → Request
  revoke : ℕ → Request
  revoke_user : ℕ → Request

module _ (hash : ℕ → ℕ) (lifetimes : Lifetimes) where
  unfoldable pub serve : Request → List RefreshToken → List RefreshToken
  unfolding create_refresh_token rotate_refresh_token revoke_refresh_token
      revoke_user_refresh_tokens
  serve (create user raw family now) rows =
      create_refresh_token hash lifetimes user raw family now rows
  serve (rotate raw new_raw now) rows = (rotate_refresh_token hash lifetimes raw new_raw now rows).0
  serve (revoke raw) rows = (revoke_refresh_token hash lifetimes raw rows).0
  serve (revoke_user user) rows = (revoke_user_refresh_tokens user rows).0

  unfoldable pub serve_all : List Request → List RefreshToken → List RefreshToken
  unfolding serve
  serve_all [] rows = rows
  serve_all (q ∷ qs) rows = serve_all qs (serve q rows)
