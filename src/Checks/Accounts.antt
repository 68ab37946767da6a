-- ===== src/Checks/Accounts.antt =====
-- Failed logins, refresh tokens and access tokens.
use quantumsentinel_web.Prelude.{
  ℕ, ◌≡◌, ◌+◌, refl, Bool, true, false, not, Option, none, some, List, [], ◌∷◌, arith, select_where,
  first_where, count_where, update_where, update_first, leb, if◌then◌else◌,
}
use quantumsentinel_web.Auth.Limiter.{
  Call, check, fail, clear, answers, after, InTime, expire_lockout_state, failures_stale,
  lock_stale,
}
use quantumsentinel_web.Auth.Limiter.Kept.{Until, no_failures, expire_exact}
use quantumsentinel_web.Auth.Limiter.Promise.{promised_answers, no_accounts}
use quantumsentinel_web.Auth.Limiter.Promise.Refines.{answers-eq-promised}
use quantumsentinel_web.Auth.Tokens.{
  RefreshToken, Lifetimes, declined, rotate_refresh_token, rotate_found, exchange, insert_token,
  family_created_at, Request, create, rotate, revoke, revoke_user, serve, serve_all,
  create_refresh_token, or_rows, revoke_family,
}
use quantumsentinel_web.Auth.Tokens.Reuse.{rotated_once}
use quantumsentinel_web.Auth.Tokens.Families.{Fresh, reuse_ends_family}
use quantumsentinel_web.Auth.AccessTokens.{Payload}
use quantumsentinel_web.Auth.AccessTokens.Cache.{
  Decoding, decode_all, decode_each, Ordered, ExpiryOnly, cached-eq-fresh,
}

abbrev same : List ℕ → List ℕ
same s = s

abbrev email : List ℕ
email = 97 ∷ 64 ∷ 98 ∷ []

-- Five failures lock the account, a check finds the lock, a clear takes it away.
abbrev calls : List Call
calls =
    fail email none 1000000
    ∷ fail email none 2000000
    ∷ fail email (some (49 ∷ [])) 2500000
    ∷ fail email none 3000000
    ∷ fail email none 4000000
    ∷ fail email none 5000000
    ∷ check email none 6000000
    ∷ clear email none 7000000
    ∷ []

calls-InTime : InTime 0 calls
unfolding InTime
calls-InTime = (
  omega arith,
  (
    omega arith,
    (omega arith, (omega arith, (omega arith, (omega arith, (omega arith, (omega arith, tt)))))),
  ),
)

answers-eq-promised_example :
    answers same calls no_failures ≡ promised_answers same calls no_accounts
answers-eq-promised_example = answers-eq-promised same calls calls-InTime

calls-Until : Until 0 950000000 calls
unfolding Until
calls-Until = omega arith

expire_exact_example : expire_lockout_state 950000000 (after same calls no_failures) ≡ record {
  failed =
      select_where
        (λ x. not (failures_stale 950000000 x.value))
        (after same calls no_failures).failed;
  locked =
      select_where (λ x. not (lock_stale 950000000 x.value)) (after same calls no_failures).locked;
}
expire_exact_example = expire_exact same calls 950000000 calls-InTime calls-Until

abbrev sha : ℕ → ℕ
sha raw = raw + 1000

abbrev lifetimes : Lifetimes
lifetimes = record { sliding = 500; absolute = 2000 }

abbrev token : ℕ → Bool → RefreshToken
token raw is_used = record {
  user_id = 3;
  token_hash = sha raw;
  family_id = 77;
  is_used = is_used;
  is_revoked = false;
  created_at = 10;
  expires_at = 510;
}

abbrev requests : List Request
requests = create 4 61 78 300 ∷ rotate 52 53 310 ∷ revoke 61 ∷ revoke_user 9 ∷ []

rotated_once_example :
    (rotate_refresh_token sha lifetimes 51 54 400 (
      serve_all sha lifetimes requests
        (rotate_refresh_token sha lifetimes 51 52 200 (token 51 false ∷ [])).0)).1
    ≡ declined
unfolding rotate_refresh_token rotate_found exchange insert_token family_created_at first_where
    update_first count_where
rotated_once_example =
    rotated_once sha lifetimes (token 51 false ∷ []) 51 52 200 52 3 77 requests 54 400 refl

abbrev family : List RefreshToken
family = token 51 true ∷ token 52 false ∷ []

reuse_ends_family_example :
    (rotate_refresh_token sha lifetimes 52 55 400 (
      serve_all sha lifetimes
        (create 4 61 78 300 ∷ [])
        (rotate_refresh_token sha lifetimes 51 54 200 family).0)).1
    ≡ declined
unfolding rotate_refresh_token rotate_found revoke_family first_where update_where serve_all serve
    create_refresh_token insert_token or_rows count_where Fresh
reuse_ends_family_example =
    reuse_ends_family sha lifetimes family 51 54 200 (token 51 true) (create 4 61 78 300 ∷ []) 52 55
      400 record (token 52 false) { is_revoked = true } refl refl refl (omega arith)
      ((λ e. absurd (ground arith)), tt) refl refl

-- Every token expires at 50, and then it is refused.
abbrev payload : Payload
payload = record { sub = 1; tier = 0; jti = 9; iat = 5; exp = 50 }

abbrev decode : ℕ → ℕ → Option Payload
decode token now = if leb 50 now then none else some payload

decode-ExpiryOnly : ExpiryOnly decode
decode-ExpiryOnly = record {
  stays = λ token now later p e h k. ground arith;
  expires = λ token now later p e h. ground arith;
}

abbrev decodings : List Decoding
decodings =
    record { token = 7; at_time = 10; written_at = 11 }
    ∷ record { token = 7; at_time = 20; written_at = 20 }
    ∷ record { token = 7; at_time = 60; written_at = 60 }
    ∷ []

cached-eq-fresh_example : decode_all decode decodings [] ≡ decode_each decode decodings
unfolding Ordered
cached-eq-fresh_example =
    cached-eq-fresh decode decodings decode-ExpiryOnly
      (omega arith, (omega arith, (omega arith, tt)))
