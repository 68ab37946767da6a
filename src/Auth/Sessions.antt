-- ===== src/Auth/Sessions.antt =====
-- Handshake sessions and their nonces (SESSIONS, NONCES, _expire_sessions, _consume_nonce_local,
-- and the first steps of perform_handshake). A time is a number of microseconds; a nonce stands for
-- its SHA-256. Text is a number.
pub mod Once
use quantumsentinel_web.Prelude.{
  ℕ, ◌+◌, ◌-◌, Bool, true, false, not, ltb, leb, ◌==◌, if◌then◌else◌, Option, none, some, List, [],
  ◌∷◌, ◌++◌, length, take, drop, order_by, select_where,
}
use quantumsentinel_web.Prelude.Dict.{Item, KeyTest, get, pop, put}
use quantumsentinel_web.Auth.AccessTokens.{number_key}

-- The values of SESSIONS.
pub record Handshake : Type 0 where
  pub user_id : ℕ
  pub session_key : ℕ
  pub created_at : ℕ
  pub expires_at : ℕ

abbrev pub Sessions : Type 0
Sessions = List (Item ℕ Handshake)

abbrev pub Nonces : Type 0
Nonces = List (Item ℕ ℕ)

-- MAX_SESSIONS, and NONCE_TTL_SECONDS in microseconds.
abbrev pub max_sessions : ℕ
max_sessions = 10000

abbrev pub nonce_ttl : ℕ
nonce_ttl = 300000000

abbrev pub unexpired : ℕ → Item ℕ Handshake → Bool
unexpired now x = not (ltb x.value.expires_at now)

abbrev pub by_created : Item ℕ Handshake → ℕ
by_created x = x.value.created_at

-- SESSIONS.pop(k, None) for each of the keys.
unfoldable pub pop_each : Sessions → Sessions → Sessions
unfolding pop
pop_each [] sessions = sessions
pop_each (x ∷ xs) sessions = pop_each xs (pop number_key x.key sessions)

-- What is over the capacity goes, the oldest first.
unfoldable pub trim : Sessions → Sessions
unfolding pop_each order_by
trim sessions =
    if ltb max_sessions (length sessions)
    then pop_each (take (length sessions - max_sessions) (order_by by_created sessions)) sessions
    else sessions

unfoldable pub expire_sessions : ℕ → Sessions → Sessions
unfolding trim select_where
expire_sessions now sessions = trim (select_where (unexpired now) sessions)

abbrev pub recent_nonce : ℕ → Item ℕ ℕ → Bool
recent_nonce now x = not (ltb (x.value + nonce_ttl) now)

abbrev pub consumed : ℕ → ℕ → Nonces → Option ℕ → Nonces × Bool
consumed nonce now nonces (some t) = (nonces, false)
consumed nonce now nonces none = (put number_key nonce now nonces, true)

unfoldable pub consume_nonce_local : ℕ → ℕ → Nonces → Nonces × Bool
unfolding select_where get put
consume_nonce_local nonce now nonces =
    let recent = select_where (recent_nonce now) nonces in
    consumed nonce now recent (get number_key nonce recent)

-- How a handshake goes on: to the key exchange, or with an HTTPException.
pub data Admission : Type 0 where
  admitted : Admission
  refused : ℕ → Admission

abbrev pub admission : Bool → Admission
admission true = admitted
admission false = refused 409

-- Where there is a Redis client, `some (some accepted)` is its answer and `some none` none: production
-- refuses then.
unfoldable pub admit_nonce : Bool → Option (Option Bool) → ℕ → ℕ → Nonces → Nonces × Admission
unfolding consume_nonce_local
admit_nonce production (some (some accepted)) nonce now nonces = (nonces, admission accepted)
admit_nonce production (some none) nonce now nonces =
    if production
    then (nonces, refused 503)
    else let r = consume_nonce_local nonce now nonces in (r.0, admission r.1)
admit_nonce production none nonce now nonces =
    let r = consume_nonce_local nonce now nonces in (r.0, admission r.1)

-- SESSIONS[session_id] = {...}, at the end of a handshake.
unfoldable pub open_session : ℕ → ℕ → ℕ → ℕ → Sessions → Sessions
unfolding put
open_session id user key now sessions =
    put number_key id
      record { user_id = user; session_key = key; created_at = now; expires_at = now + 3600000000 }
      sessions
