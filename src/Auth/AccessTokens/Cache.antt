-- ===== src/Auth/AccessTokens/Cache.antt =====
-- The answers of the cache of verified tokens, and its size.
use quantumsentinel_web.Prelude.{
  ℕ, ◌≤◌, ◌<◌, ◌≡◌, refl, arith, ltb, Option, none, some, List, [], ◌∷◌, All, Bool-cases,
  Option-cases, inl, inr, length, if_both,
}
use quantumsentinel_web.Prelude.Dict.{Item, get, put, pop_front}
use quantumsentinel_web.Prelude.Dict.Order.{All-pop, All-put, All-pop_front, All-get}
use quantumsentinel_web.Auth.AccessTokens.{
  Payload, Verified, number_key, verified_tokens_max, pop_oldest, expired, remember,
  decode_access_token, verify_miss,
}

-- One request: the token, the time of its lookup and that of its write.
pub record Decoding : Type 0 where
  pub token : ℕ
  pub at_time : ℕ
  pub written_at : ℕ

module _ (decode : ℕ → ℕ → Option Payload) where
  unfoldable pub decode_all : List Decoding → Verified → List (Option Payload)
  unfolding decode_access_token
  decode_all [] cache = []
  decode_all (d ∷ ds) cache =
      let r = decode_access_token decode d.token d.at_time d.written_at cache in
      r.1 ∷ decode_all ds r.0

  -- What jwt.decode would have answered each time.
  unfoldable pub decode_each : List Decoding → List (Option Payload)
  decode_each [] = []
  decode_each (d ∷ ds) = decode d.token d.at_time ∷ decode_each ds

-- The times of the lookups do not go back.
unfoldable pub Ordered : ℕ → List Decoding → Type 0
Ordered last [] = Unit
Ordered last (d ∷ ds) = (last ≤ d.at_time) × Ordered d.at_time ds

-- A library that verifies a token alike at all times until it expires, and refuses it then.
pub record ExpiryOnly (decode : ℕ → ℕ → Option Payload) : Type 0 where
  pub stays :
      (token now later : ℕ) (p : Payload)
      → decode token now ≡ some p
      → now ≤ later
      → later < p.exp
      → decode token later ≡ some p
  pub expires :
      (token now later : ℕ) (p : Payload)
      → decode token now ≡ some p
      → p.exp ≤ later
      → decode token later ≡ none

module _ (decode : ℕ → ℕ → Option Payload) (law : ExpiryOnly decode) where
  -- The payload is what decoding the token gave at some time that has passed.
  abbrev WasDecoded : ℕ → Item ℕ Payload → Type 0
  WasDecoded now x = (t : ℕ) × (t ≤ now) × (decode x.key t ≡ some x.value)

  decoded_later :
      (last now : ℕ) (xs : Verified)
      → last ≤ now
      → All (WasDecoded last) xs
      → All (WasDecoded now) xs
  decoded_later last now [] h a = tt
  decoded_later last now (x ∷ xs) h a =
      let (t, before, e) = a.0 in ((t, omega arith, e), decoded_later last now xs h a.1)

  decoded_tail :
      (now : ℕ) (xs : Verified) → All (WasDecoded now) xs → All (WasDecoded now) (pop_oldest xs)
  unfolding pop_oldest
  decoded_tail now [] a = tt
  decoded_tail now (x ∷ xs) a = a.1

  remember-decoded :
      (token now after : ℕ) (p : Payload) (cache : Verified)
      → decode token now ≡ some p
      → All (WasDecoded now) cache
      → All (WasDecoded now) (remember token p after cache)
  unfolding remember
  remember-decoded token now after p cache e a =
      let pruned = pop_front (expired after) cache in
      let kept = All-pop_front number_key (WasDecoded now) (expired after) cache a in
      let stored = All-put number_key (WasDecoded now) token p pruned (now, omega arith, e) kept in
      if_both (All (WasDecoded now))
        (ltb verified_tokens_max (length (put number_key token p pruned)))
        (λ h. decoded_tail now _ stored) (λ h. stored)

  decode-step :
      (last : ℕ) (d : Decoding) (cache : Verified)
      → last ≤ d.at_time
      → All (WasDecoded last) cache
      → All
          (WasDecoded d.at_time)
          (decode_access_token decode d.token d.at_time d.written_at cache).0
        × ((decode_access_token decode d.token d.at_time d.written_at cache).1
            ≡ decode d.token d.at_time)
  unfolding decode_access_token
  decode-step last d cache h a =
      let now = d.at_time in
      let kept = decoded_later last now cache h a in
      elim (Option-cases (get number_key d.token cache)) [
        | inl e ↦ rw e (missed (decode d.token now) refl kept)
        | inr (p, e) ↦
            let (t, before, was) = All-get number_key (WasDecoded now) d.token p cache kept e in
            elim (Bool-cases (ltb now p.exp)) [
              | inl live ↦
                  rw (e, live, law.stays d.token t now p was before (ground arith)) (kept, refl)
              | inr over ↦
                  rw (e, over, law.expires d.token t now p was (ground arith))
                    (All-pop number_key (WasDecoded now) d.token cache kept, refl)
            ]
      ]
    where
      missed :
          (answer : Option Payload)
          → decode d.token d.at_time ≡ answer
          → All (WasDecoded d.at_time) cache
          → All (WasDecoded d.at_time) (verify_miss decode d.token d.written_at cache answer).0
            × ((verify_miss decode d.token d.written_at cache answer).1 ≡ answer)
      missed none e k = (k, refl)
      missed (some p) e k = (remember-decoded d.token d.at_time d.written_at p cache e k, refl)

  decode_all-eq :
      (last : ℕ) (ds : List Decoding) (cache : Verified)
      → Ordered last ds
      → All (WasDecoded last) cache
      → decode_all decode ds cache ≡ decode_each decode ds
  unfolding decode_all decode_each Ordered
  decode_all-eq last [] cache o a = refl
  decode_all-eq last (d ∷ ds) cache o a =
      let (kept, same) = decode-step last d cache o.0 a in
      rw (same, decode_all-eq d.at_time ds _ o.1 kept) refl

-- The cache of verified tokens changes no answer: over requests whose lookups come in the order of
-- their times, each gets what verifying its token afresh would have given, where verification
-- depends on the time through the expiry alone.
pub cached-eq-fresh :
    (decode : ℕ → ℕ → Option Payload) (ds : List Decoding)
    → ExpiryOnly decode
    → Ordered 0 ds
    → decode_all decode ds [] ≡ decode_each decode ds
cached-eq-fresh decode ds law o = decode_all-eq decode law 0 ds [] o tt
