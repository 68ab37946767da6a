-- ===== src/Auth/Sessions/Once.antt =====
-- Nonces that were consumed.
use quantumsentinel_web.Prelude.{
  ℕ, ◌+◌, ◌≤◌, ◌≡◌, refl, arith, Bool, true, false, ◌==◌, Option, none, some, List, [], ◌∷◌,
  Option-cases, inl, inr, select_where,
}
use quantumsentinel_web.Prelude.Dict.{get, get-put_self, get-put_other}
use quantumsentinel_web.Auth.AccessTokens.{number_key}
use quantumsentinel_web.Auth.Sessions.{
  Nonces, nonce_ttl, recent_nonce, consume_nonce_local, refused, admit_nonce,
}

-- Handshakes one after another: what Redis answered, the nonce and the time.
pub record Attempt : Type 0 where
  pub redis : Option (Option Bool)
  pub nonce : ℕ
  pub at_time : ℕ

unfoldable pub admit_all : Bool → List Attempt → Nonces → Nonces
unfolding admit_nonce
admit_all production [] nonces = nonces
admit_all production (a ∷ attempts) nonces =
    admit_all production attempts (admit_nonce production a.redis a.nonce a.at_time nonces).0

-- No attempt is later than `now`.
unfoldable pub Before : ℕ → List Attempt → Type 0
Before now [] = Unit
Before now (a ∷ attempts) = (a.at_time ≤ now) × Before now attempts

get-recent :
    (n t now : ℕ) (nonces : Nonces)
    → now ≤ t + nonce_ttl
    → get number_key n nonces ≡ some t
    → get number_key n (select_where (recent_nonce now) nonces) ≡ some t
unfolding get select_where
get-recent n t now [] h e = e
get-recent n t now (x ∷ xs) h e = ground (arith, get-recent n t now xs h)

consume_keeps :
    (n t nonce now : ℕ) (nonces : Nonces)
    → now ≤ t + nonce_ttl
    → get number_key n nonces ≡ some t
    → get number_key n (consume_nonce_local nonce now nonces).0 ≡ some t
unfolding consume_nonce_local
consume_keeps n t nonce now nonces h e =
    let recent = select_where (recent_nonce now) nonces in
    let kept = get-recent n t now nonces h e in
    elim (Option-cases (get number_key nonce recent)) [
      | inr (u, f) ↦ rw f kept
      | inl f ↦
          let other : (n == nonce) ≡ false = ground (arith, kept, f) in
          rw (f, get-put_other number_key n nonce now recent other) kept
    ]

admit_keeps :
    (production : Bool) (n t : ℕ) (reply : Option (Option Bool)) (nonce now : ℕ) (nonces : Nonces)
    → now ≤ t + nonce_ttl
    → get number_key n nonces ≡ some t
    → get number_key n (admit_nonce production reply nonce now nonces).0 ≡ some t
unfolding admit_nonce
admit_keeps production n t none nonce now nonces h e = consume_keeps n t nonce now nonces h e
admit_keeps true n t (some none) nonce now nonces h e = e
admit_keeps false n t (some none) nonce now nonces h e = consume_keeps n t nonce now nonces h e
admit_keeps production n t (some (some b)) nonce now nonces h e = e

admit_all_keeps :
    (production : Bool) (n t now : ℕ) (attempts : List Attempt) (nonces : Nonces)
    → Before now attempts
    → now ≤ t + nonce_ttl
    → get number_key n nonces ≡ some t
    → get number_key n (admit_all production attempts nonces) ≡ some t
unfolding admit_all Before
admit_all_keeps production n t now [] nonces b h e = e
admit_all_keeps production n t now (a ∷ attempts) nonces b h e =
    admit_all_keeps production n t now attempts _ b.1 h
      (admit_keeps production n t a.redis a.nonce a.at_time nonces (omega arith) e)

consumed_now :
    (n t : ℕ) (nonces : Nonces)
    → (consume_nonce_local n t nonces).1 ≡ true
    → get number_key n (consume_nonce_local n t nonces).0 ≡ some t
unfolding consume_nonce_local
consumed_now n t nonces =
    let recent = select_where (recent_nonce t) nonces in
    elim (Option-cases (get number_key n recent)) [
      | inl e ↦ rw e (λ h. get-put_self number_key n t recent)
      | inr (u, e) ↦ rw e (λ h. absurd (ground arith))
    ]

consumed_refused :
    (n t now : ℕ) (nonces : Nonces)
    → now ≤ t + nonce_ttl
    → get number_key n nonces ≡ some t
    → (consume_nonce_local n now nonces).1 ≡ false
unfolding consume_nonce_local
consumed_refused n t now nonces h e = rw (get-recent n t now nonces h e) refl

-- A nonce that the process has consumed is refused as a replay until its lifetime is over, whatever
-- handshakes come in between, where no Redis client is configured.
pub handshake_once :
    (production : Bool) (n t now : ℕ) (nonces : Nonces) (attempts : List Attempt)
    → (consume_nonce_local n t nonces).1 ≡ true
    → Before now attempts
    → now ≤ t + nonce_ttl
    → (admit_nonce production none n now
        (admit_all production attempts (consume_nonce_local n t nonces).0)).1
      ≡ refused 409
unfolding admit_nonce
handshake_once production n t now nonces attempts h b k =
    let kept = admit_all_keeps production n t now attempts _ b k (consumed_now n t nonces h) in
    rw (consumed_refused n t now _ k kept) refl
