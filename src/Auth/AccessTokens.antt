-- ===== src/Auth/AccessTokens.antt =====
-- Access tokens and the cache of those that were verified (_VERIFIED_TOKENS, decode_access_token).
-- `decode token now` is jwt.decode with the key, the issuer and the audience, `none` where it raises.
-- The clock is read once for a hit and once more after a miss was verified.
pub mod Cache
use quantumsentinel_web.Prelude.{
  ℕ, ◌+◌, Bool, true, false, not, ltb, leb, if◌then◌else◌, Option, none, some, List, [], ◌∷◌, ◌++◌,
  length, ==_iff, ◌==◌, arith, ◌≡◌, refl,
}
use quantumsentinel_web.Prelude.Dict.{Item, KeyTest, get, pop, put, pop_front}

-- The claims of a token.
pub record Payload : Type 0 where
  pub sub : ℕ
  pub tier : ℕ
  pub jti : ℕ
  pub iat : ℕ
  pub exp : ℕ

pub number_test_refl : (k : ℕ) → (k == k) ≡ true
number_test_refl k = ground arith

pub number_test_eq : (j k : ℕ) → (j == k) ≡ true → j ≡ k
number_test_eq j k h = ground arith

abbrev pub number_key : KeyTest ℕ
number_key = record { test = λ j k. j == k; test_refl = number_test_refl; test_eq = number_test_eq }

abbrev pub Verified : Type 0
Verified = List (Item ℕ Payload)

-- _VERIFIED_TOKENS_MAX
abbrev pub verified_tokens_max : ℕ
verified_tokens_max = 10000

-- create_access_token, before it is signed.
unfoldable pub access_payload : ℕ → ℕ → ℕ → ℕ → ℕ → Payload
access_payload user tier jti now lifetime = record {
  sub = user;
  tier = tier;
  jti = jti;
  iat = now;
  exp = now + lifetime;
}

-- popitem(last=False)
unfoldable pub pop_oldest : Verified → Verified
pop_oldest [] = []
pop_oldest (x ∷ xs) = xs

abbrev pub expired : ℕ → Payload → Bool
expired now p = leb p.exp now

unfoldable pub remember : ℕ → Payload → ℕ → Verified → Verified
unfolding pop_front put pop_oldest
remember token p now cache =
    let stored = put number_key token p (pop_front (expired now) cache) in
    if ltb verified_tokens_max (length stored) then pop_oldest stored else stored

module _ (decode : ℕ → ℕ → Option Payload) where
  abbrev pub verify_miss : ℕ → ℕ → Verified → Option Payload → Verified × Option Payload
  verify_miss token after cache none = (cache, none)
  verify_miss token after cache (some p) = (remember token p after cache, some p)

  abbrev look_up : ℕ → ℕ → ℕ → Verified → Option Payload → Verified × Option Payload
  unfolding pop
  look_up token now after cache none = verify_miss token after cache (decode token now)
  look_up token now after cache (some p) =
      if ltb now p.exp then (cache, some p) else (pop number_key token cache, none)

  -- The token at the time `now`; the cache is written at the time `after`.
  unfoldable pub decode_access_token : ℕ → ℕ → ℕ → Verified → Verified × Option Payload
  unfolding get pop remember
  decode_access_token token now after cache =
      look_up token now after cache (get number_key token cache)
