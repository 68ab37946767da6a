-- ===== src/Security.antt =====
-- Order authorisation (backend/services/order_security.py): the envelope's clock window, signature
-- checks, idempotency keys. A refusal is the status code of the HTTPException. Text is a list
-- of character codes; `production` is ENVIRONMENT == "production".
pub mod Risk
pub mod Replay
use quantumsentinel_web.Prelude.{
  ℕ, suc, ◌+◌, ◌-◌, Bool, true, false, not, ◌&&◌, ◌||◌, ltb, leb, ◌==◌, if◌then◌else◌, Option, none,
  some, List, [], ◌∷◌, ◌++◌, update_where, count_where, select_where, first_where, update_first,
}

pub data Checked (A : Type 0) : Type 0 where
  accepted : A → Checked A
  refused : ℕ → Checked A

abbrev between : ℕ → ℕ → ℕ → Bool
between low high c = leb low c && leb c high

-- [A-Za-z0-9_-]
abbrev token_char : ℕ → Bool
token_char c = (between 65 90 c || between 97 122 c) || (between 48 57 c || (c == 95 || c == 45))

unfoldable pub all_chars : (ℕ → Bool) → List ℕ → Bool
all_chars p [] = true
all_chars p (c ∷ s) = p c && all_chars p s

unfoldable pub text_length : List ℕ → ℕ
text_length [] = 0
text_length (c ∷ s) = suc (text_length s)

-- re.fullmatch of [A-Za-z0-9_-]{low,128}
unfoldable pub is_token : ℕ → List ℕ → Bool
unfolding all_chars text_length
is_token low s = all_chars token_char s && between low 128 (text_length s)

abbrev pub max_envelope_ttl_seconds : ℕ
max_envelope_ttl_seconds = 300

unfoldable pub validate_envelope : ℕ → ℕ → List ℕ → ℕ → Checked Unit
unfolding is_token
validate_envelope timestamp expires_at nonce now =
    if not (is_token 16 nonce)
    then refused 400
    else if ltb (now + 30) timestamp || ltb (timestamp + max_envelope_ttl_seconds) now
    then refused 400
    else if leb expires_at now
        || (leb expires_at timestamp || ltb (timestamp + max_envelope_ttl_seconds) expires_at)
    then refused 400
    else accepted tt

-- The columns of a KeyPair that are read; an algorithm is a number.
pub record SigningKey : Type 0 where
  pub id : ℕ
  pub user_id : ℕ
  pub is_ml_dsa_65 : Bool
  pub is_active : Bool

pub data SignatureMode : Type 0 where
  client_mldsa development_server : SignatureMode

-- Key id, signature and mode of the order's audit record.
pub record Attestation : Type 0 where
  pub key_id : ℕ
  pub signature : ℕ
  pub mode : SignatureMode

-- `verify key canonical signature` is pqc.dsa_verify, false where it raises; `server_signature` is
-- what the server's identity signs with, under the key id `server_key`.
module _ (verify : SigningKey → ℕ → ℕ → Bool) (server_key : ℕ) (server_signature : ℕ → ℕ) where
  unfoldable pub verify_client : Option SigningKey → ℕ → ℕ → ℕ → Checked Attestation
  verify_client none user canonical signature = refused 403
  verify_client (some key) user canonical signature =
      if not (key.user_id == user) || (not key.is_ml_dsa_65 || not key.is_active)
      then refused 403
      else if not (verify key canonical signature)
      then refused 403
      else accepted record { key_id = key.id; signature = signature; mode = client_mldsa }

  -- `none` is a missing or an empty key id or signature.
  unfoldable pub verify_or_attest :
      Bool → List SigningKey → ℕ → ℕ → Option ℕ → Option ℕ → Checked Attestation
  unfolding verify_client
  verify_or_attest production keys user canonical (some key) (some signature) =
      verify_client (first_where (λ k. k.id == key) keys) user canonical signature
  verify_or_attest production keys user canonical (some key) none = refused 400
  verify_or_attest production keys user canonical none (some signature) = refused 400
  verify_or_attest production keys user canonical none none =
      if production
      then refused 403
      else accepted record {
        key_id = server_key;
        signature = server_signature canonical;
        mode = development_server;
      }

-- A row of idempotency_records.
pub record IdempotencyRecord : Type 0 where
  pub user_id : ℕ
  pub idempotency_key : List ℕ
  pub request_hash : ℕ
  pub response_json : Option ℕ

unfoldable pub same_text : List ℕ → List ℕ → Bool
same_text [] [] = true
same_text (c ∷ s) (d ∷ t) = c == d && same_text s t
same_text _ _ = false

abbrev pub key_row : ℕ → List ℕ → IdempotencyRecord → Bool
key_row user key r = r.user_id == user && same_text r.idempotency_key key

-- What an order's request does next: go on, or return the response of the first one.
pub data Retry : Type 0 where
  proceed : Retry
  replay : ℕ → Retry

-- `_validate_idempotency_key`; `none` is a missing key.
unfoldable pub validate_idempotency_key : Bool → Option (List ℕ) → Checked Unit
unfolding is_token
validate_idempotency_key production none = if production then refused 400 else accepted tt
validate_idempotency_key production (some []) = if production then refused 400 else accepted tt
validate_idempotency_key production (some (c ∷ s)) =
    if is_token 8 (c ∷ s) then accepted tt else refused 400

-- What the record of an earlier request decides.
unfoldable pub decide : ℕ → IdempotencyRecord → Checked Retry
decide hash r =
    if not (r.request_hash == hash)
    then refused 409
    else elim r.response_json [ none ↦ refused 409 | some response ↦ accepted (replay response) ]

unfoldable pub decide_found : ℕ → Option IdempotencyRecord → Checked Retry
unfolding decide
decide_found hash none = accepted proceed
decide_found hash (some r) = decide hash r

-- An operation on a key that was validated.
unfoldable pub when_valid : {A : Type 0} → (ℕ → A) → Checked Unit → A → A
when_valid on_refusal (refused code) a = on_refusal code
when_valid on_refusal (accepted done) a = a

unfoldable pub look_up : List IdempotencyRecord → ℕ → Option (List ℕ) → ℕ → Checked Retry
unfolding decide_found
look_up records user none hash = accepted proceed
look_up records user (some []) hash = accepted proceed
look_up records user (some (c ∷ s)) hash =
    decide_found hash (first_where (key_row user (c ∷ s)) records)

unfoldable pub get_completed_idempotency_response :
    Bool → List IdempotencyRecord → ℕ → Option (List ℕ) → ℕ → Checked Retry
unfolding validate_idempotency_key when_valid look_up
get_completed_idempotency_response production records user key hash =
    when_valid refused (validate_idempotency_key production key) (look_up records user key hash)

-- One round of reserving a key that is not empty: the first record of it is what the query read,
-- `seen` the table when the INSERT is committed, which fails on a second row with this user and key.
unfoldable pub reserve_round :
    (List IdempotencyRecord → List IdempotencyRecord × Checked Retry)
    → Option IdempotencyRecord
    → List IdempotencyRecord
    → List IdempotencyRecord
    → ℕ
    → List ℕ
    → ℕ
    → List IdempotencyRecord × Checked Retry
unfolding decide
reserve_round again (some r) records seen user key hash = (records, decide hash r)
reserve_round again none records seen user key hash =
    if count_where (key_row user key) seen == 0
    then (
      seen
          ++ record {
            user_id = user;
            idempotency_key = key;
            request_hash = hash;
            response_json = none;
          }
            ∷ [],
      accepted proceed,
    )
    else again seen

-- `others` is what is committed between the read and the commit of each round; in the round after
-- them nothing is, so that it is the last one.
unfoldable pub reserve_rounds :
    List (List IdempotencyRecord → List IdempotencyRecord)
    → List IdempotencyRecord
    → ℕ
    → List ℕ
    → ℕ
    → List IdempotencyRecord × Checked Retry
unfolding reserve_round
reserve_rounds [] records user key hash =
    reserve_round (λ left. (left, refused 409)) (first_where (key_row user key) records) records
      records user key hash
reserve_rounds (other ∷ others) records user key hash =
    reserve_round (λ left. reserve_rounds others left user key hash)
      (first_where (key_row user key) records) records (other records) user key hash

unfoldable pub reserve_key :
    List (List IdempotencyRecord → List IdempotencyRecord)
    → List IdempotencyRecord
    → ℕ
    → Option (List ℕ)
    → ℕ
    → List IdempotencyRecord × Checked Retry
unfolding reserve_rounds
reserve_key others records user none hash = (records, accepted proceed)
reserve_key others records user (some []) hash = (records, accepted proceed)
reserve_key others records user (some (c ∷ s)) hash =
    reserve_rounds others records user (c ∷ s) hash

unfoldable pub reserve_idempotency :
    Bool
    → List (List IdempotencyRecord → List IdempotencyRecord)
    → List IdempotencyRecord
    → ℕ
    → Option (List ℕ)
    → ℕ
    → List IdempotencyRecord × Checked Retry
unfolding validate_idempotency_key when_valid reserve_key
reserve_idempotency production others records user key hash =
    when_valid (λ code. (records, refused code)) (validate_idempotency_key production key)
      (reserve_key others records user key hash)

abbrev pub in_progress : ℕ → List ℕ → IdempotencyRecord → Bool
in_progress user key r =
    key_row user key r && elim r.response_json [ none ↦ true | some response ↦ false ]

unfoldable pub release_idempotency :
    List IdempotencyRecord → ℕ → Option (List ℕ) → List IdempotencyRecord
release_idempotency records user none = records
release_idempotency records user (some []) = records
release_idempotency records user (some (c ∷ s)) =
    select_where (λ r. not (in_progress user (c ∷ s) r)) records

abbrev pub responded : ℕ → IdempotencyRecord → IdempotencyRecord
responded response r = record r { response_json = some response }

unfoldable pub complete_idempotency :
    List IdempotencyRecord → ℕ → Option (List ℕ) → ℕ → List IdempotencyRecord
unfolding update_first
complete_idempotency records user none response = records
complete_idempotency records user (some []) response = records
complete_idempotency records user (some (c ∷ s)) response =
    update_first (key_row user (c ∷ s)) (responded response) records
