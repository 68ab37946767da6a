-- ===== src/Security/Replay.antt =====
-- Idempotency keys of an order, and the clock window of its envelope
-- (backend/services/order_security.py).
use quantumsentinel_web.Prelude.{
  ℕ, ap, ◌∙◌, ◌+◌, ◌<◌, ◌≤◌, ◌≡◌, ◌↔◌, refl, Bool, true, not, ◌==◌, if◌then◌else◌, none, some, List,
  [], ◌∷◌, ◌++◌, arith, first_where, count_where,
}
use quantumsentinel_web.Prelude.First.{
  first_where-satisfies, first_where-append_new, first_where-update_first, first_where-none,
  count_where-select_new,
}
use quantumsentinel_web.Security.{
  accepted, refused, is_token, validate_envelope, IdempotencyRecord, key_row, proceed, replay,
  decide, decide_found, when_valid, look_up, reserve_key, validate_idempotency_key,
  get_completed_idempotency_response, reserve_round, reserve_rounds, reserve_idempotency,
  in_progress, release_idempotency, responded, complete_idempotency, same_text,
}

-- An envelope is accepted exactly where its nonce is well-formed, its timestamp is at most 30 seconds
-- ahead and 300 seconds old, and it expires after now and after its timestamp, within 300 seconds
-- of the latter.
pub envelope_window :
    (timestamp expires_at : ℕ) (nonce : List ℕ) (now : ℕ)
    → (validate_envelope timestamp expires_at nonce now ≡ accepted tt) ↔ (
        (is_token 16 nonce ≡ true)
        × (((timestamp ≤ now + 30) × (now ≤ timestamp + 300))
            × ((now < expires_at) × ((timestamp < expires_at) × (expires_at ≤ timestamp + 300)))))
unfolding validate_envelope
envelope_window timestamp expires_at nonce now = ground arith

pub same_text_refl : (s : List ℕ) → same_text s s ≡ true
unfolding same_text
same_text_refl [] = refl
same_text_refl (c ∷ s) = ground (arith, same_text_refl s)

-- The record that decides about a key.
abbrev pub Recorded : List IdempotencyRecord → ℕ → List ℕ → IdempotencyRecord → Type 0
Recorded records user key r = first_where (key_row user key) records ≡ some r

module _ (production : Bool) (user c : ℕ) (s : List ℕ) (valid : is_token 8 (c ∷ s) ≡ true) where
  valid_key : validate_idempotency_key production (some (c ∷ s)) ≡ accepted tt
  unfolding validate_idempotency_key
  valid_key = rw valid refl

  get_found :
      (records : List IdempotencyRecord) (r : IdempotencyRecord) (hash : ℕ)
      → Recorded records user (c ∷ s) r
      → get_completed_idempotency_response production records user (some (c ∷ s)) hash
        ≡ decide hash r
  unfolding get_completed_idempotency_response when_valid look_up decide_found
  get_found records r hash h = rw (valid_key, h) refl

  rounds_found :
      (others : List (List IdempotencyRecord → List IdempotencyRecord))
      (records : List IdempotencyRecord) (r : IdempotencyRecord) (hash : ℕ)
      → Recorded records user (c ∷ s) r
      → reserve_rounds others records user (c ∷ s) hash ≡ (records, decide hash r)
  unfolding reserve_rounds reserve_round
  rounds_found [] records r hash h = rw h refl
  rounds_found (other ∷ others) records r hash h = rw h refl

  reserve_found :
      (others : List (List IdempotencyRecord → List IdempotencyRecord))
      (records : List IdempotencyRecord) (r : IdempotencyRecord) (hash : ℕ)
      → Recorded records user (c ∷ s) r
      → reserve_idempotency production others records user (some (c ∷ s)) hash
        ≡ (records, decide hash r)
  unfolding reserve_idempotency when_valid reserve_key
  reserve_found others records r hash h = rw (valid_key, rounds_found others records r hash h) refl

  Recorded-complete :
      (records : List IdempotencyRecord) (r : IdempotencyRecord) (response : ℕ)
      → Recorded records user (c ∷ s) r
      → Recorded
          (complete_idempotency records user (some (c ∷ s)) response)
          user
          (c ∷ s)
          (responded response r)
  unfolding complete_idempotency
  Recorded-complete records r response h =
      first_where-update_first (key_row user (c ∷ s)) (responded response) r records h
        (first_where-satisfies (key_row user (c ∷ s)) r records h)

  abbrev fresh : ℕ → IdempotencyRecord
  fresh hash = record {
    user_id = user;
    idempotency_key = c ∷ s;
    request_hash = hash;
    response_json = none;
  }

  reserve_unused :
      (records : List IdempotencyRecord) (hash : ℕ)
      → count_where (key_row user (c ∷ s)) records ≡ 0
      → reserve_idempotency production [] records user (some (c ∷ s)) hash
        ≡ (records ++ fresh hash ∷ [], accepted proceed)
  unfolding reserve_idempotency reserve_rounds reserve_round when_valid reserve_key
  reserve_unused records hash h =
      rw (valid_key, first_where-none (key_row user (c ∷ s)) records h, h) refl

  is_row : (hash : ℕ) → key_row user (c ∷ s) (fresh hash) ≡ true
  is_row hash = ground (arith, same_text_refl (c ∷ s))

  unused_after_release :
      (records : List IdempotencyRecord) (hash : ℕ)
      → count_where (key_row user (c ∷ s)) records ≡ 0
      → count_where
          (key_row user (c ∷ s))
          (release_idempotency (records ++ fresh hash ∷ []) user (some (c ∷ s)))
        ≡ 0
  unfolding release_idempotency
  unused_after_release records hash h =
      count_where-select_new (key_row user (c ∷ s)) (λ r. not (in_progress user (c ∷ s) r))
        (fresh hash) records h (rw (is_row hash) refl)

decided :
    (hash response : ℕ) (r : IdempotencyRecord)
    → decide hash (responded response r)
      ≡ (if r.request_hash == hash then accepted (replay response) else refused 409)
unfolding decide
decided hash response r = ground arith

in_progress_refuses :
    (hash hash' user : ℕ) (key : List ℕ)
    → decide hash'
        record { user_id = user; idempotency_key = key; request_hash = hash; response_json = none }
      ≡ refused 409
unfolding decide
in_progress_refuses hash hash' user key = ground arith

-- Once the request of a well-formed key with a record is completed, a retry under the key does not
-- go on: with the same payload it gets the response of the first one, before and at the
-- reservation, and with another payload both refuse.
pub completed_replayed :
    (production : Bool) (others : List (List IdempotencyRecord → List IdempotencyRecord))
    (records : List IdempotencyRecord) (user c : ℕ) (s : List ℕ) (r : IdempotencyRecord)
    (response hash : ℕ)
    → is_token 8 (c ∷ s) ≡ true
    → Recorded records user (c ∷ s) r
    → let key = some (c ∷ s) in
      let done = complete_idempotency records user key response in
      let answer = if r.request_hash == hash then accepted (replay response) else refused 409 in
      (get_completed_idempotency_response production done user key hash ≡ answer)
      × (reserve_idempotency production others done user key hash ≡ (done, answer))
completed_replayed production others records user c s r response hash t h =
    let done = complete_idempotency records user (some (c ∷ s)) response in
    let found = Recorded-complete production user c s t records r response h in
    (
      get_found production user c s t done (responded response r) hash found
          ∙ decided hash response r,
      reserve_found production user c s t others done (responded response r) hash found
          ∙ ap (λ a. (done, a)) (decided hash response r),
    )

-- A well-formed key that no record has is reserved, and from then on refuses, with this and with
-- another payload; after a release it can be reserved again. Nothing is committed in between.
pub reserved_refuses :
    (production : Bool) (records : List IdempotencyRecord) (user c : ℕ) (s : List ℕ)
    (hash hash' : ℕ)
    → is_token 8 (c ∷ s) ≡ true
    → count_where (key_row user (c ∷ s)) records ≡ 0
    → let key = some (c ∷ s) in
      let reserved = reserve_idempotency production [] records user key hash in
      (reserved.1 ≡ accepted proceed)
      × ((reserve_idempotency production [] reserved.0 user key hash' ≡ (reserved.0, refused 409))
          × ((reserve_idempotency production []
                (release_idempotency reserved.0 user key)
                user
                key
                hash').1
              ≡ accepted proceed))
reserved_refuses production records user c s hash hash' t h =
    let records' = records ++ fresh production user c s t hash ∷ [] in
    rw (reserve_unused production user c s t records hash h) (
      refl,
      (
        reserve_found production user c s t [] records' (fresh production user c s t hash) hash' (
              first_where-append_new (key_row user (c ∷ s)) (fresh production user c s t hash)
                records h (is_row production user c s t hash))
            ∙ ap (λ a. (records', a)) (in_progress_refuses hash hash' user (c ∷ s)),
        ap (λ a. a.1)
            (reserve_unused production user c s t (release_idempotency records' user (some (c ∷ s)))
              hash' (unused_after_release production user c s t records hash h)),
      ),
    )
