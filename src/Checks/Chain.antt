-- ===== src/Checks/Chain.antt =====
-- An audit chain of three events in two batches, one of which the database refuses in part.
use quantumsentinel_web.Prelude.{
  ℕ, suc, ◌≡◌, refl, Bool, true, false, Option, none, some, List, [], ◌∷◌, arith, ◌==◌,
}
use quantumsentinel_web.Audit.{EventPayload, Crypto, Stamped, Tables, write_all, genesis}
use quantumsentinel_web.Audit.Check.{Keys, verify_audit_chain, audit_chain_status, check_rows}
use quantumsentinel_web.Audit.Written.{Registered, no_tables, written_verifies}
use quantumsentinel_web.Audit.Tamper.{CollisionFree, newest_hash, history, same_hash_same_history}
use quantumsentinel_web.Audit.Parts.{
  rows_upto, failure, incremental_exact, truncated, truncated_verifies,
}

abbrev code : Option ℕ → ℕ
code none = 0
code (some n) = suc n

-- A hash that keeps all that it is given.
abbrev kept_hash : ℕ → ℕ → EventPayload → List ℕ → List ℕ
kept_hash id ts p previous =
    1
    ∷ id
    ∷ ts
    ∷ p.action
    ∷ code p.user_id
    ∷ code p.resource_type
    ∷ code p.resource_id
    ∷ p.metadata
    ∷ previous

abbrev crypto : Crypto
crypto = record {
  chain_hash = kept_hash;
  timestamp = λ t. suc t;
  legacy_timestamps = λ t. [];
  sign = λ m. 5;
  dsa_verify = λ pk m s. s == 5;
}

abbrev keys : Keys
keys = record { history = λ id. some id; server = none }

abbrev known_user : Option ℕ → Bool
known_user user = true

abbrev content : ℕ → EventPayload
content action = record {
  action = action;
  user_id = some 3;
  resource_type = none;
  resource_id = some 8;
  metadata = 0;
}

abbrev stamped : ℕ → ℕ → ℕ → Stamped
stamped id action now = record {
  entry = record { log_id = id; payload = content action; signature = 5; signing_key_id = some 2 };
  now = now;
}

abbrev batches : List (List Stamped)
batches =
    (stamped 11 1 100 ∷ stamped 12 2 101 ∷ []) ∷ (stamped 12 3 102 ∷ stamped 13 4 103 ∷ []) ∷ []

stamped-Registered : (id action now : ℕ) → Registered crypto keys (stamped id action now)
stamped-Registered id action now = (2, (λ l e. rw e refl), λ m. refl)

written_verifies_example :
    verify_audit_chain crypto keys (write_all crypto known_user batches no_tables) ≡ true
written_verifies_example = written_verifies crypto keys known_user batches (
  (stamped-Registered 11 1 100, (stamped-Registered 12 2 101, tt)),
  ((stamped-Registered 12 3 102, (stamped-Registered 13 4 103, tt)), tt),
)

abbrev chain : Tables
chain = write_all crypto known_user ((stamped 11 1 100 ∷ stamped 12 2 101 ∷ []) ∷ []) no_tables

kept_hash-CollisionFree : CollisionFree crypto
kept_hash-CollisionFree = record {
  same = λ i j s t p q g h e. ground arith;
  begins = λ i s p g e. ground arith;
}

chain_verifies : verify_audit_chain crypto keys chain ≡ true
unfolding verify_audit_chain audit_chain_status write_all
chain_verifies = refl

-- The same links, beside an event that no link has.
abbrev with_unchained : Tables
with_unchained = record {
  events =
      record {
        id = 10;
        payload = content 9;
        pqc_signature = 5;
        signing_key_id = none;
        created_at = some 99;
      }
      ∷ chain.events;
  links = chain.links;
}

unchained_verifies : verify_audit_chain crypto keys with_unchained ≡ true
unfolding verify_audit_chain audit_chain_status write_all
unchained_verifies = refl

same_hash_same_history_example : history chain ≡ history with_unchained
unfolding newest_hash write_all
same_hash_same_history_example =
    same_hash_same_history crypto keys keys chain with_unchained kept_hash-CollisionFree
      chain_verifies unchained_verifies refl

incremental_exact_example :
    failure
      (audit_chain_status crypto keys false
        (some (1, kept_hash 11 101 (content 1) genesis))
        chain).verdict
    ≡ failure (audit_chain_status crypto keys true none chain).verdict
unfolding check_rows rows_upto write_all
incremental_exact_example =
    incremental_exact crypto keys chain 1 (kept_hash 11 101 (content 1) genesis) (λ e. refl)

truncated_verifies_example : verify_audit_chain crypto keys (truncated 1 chain) ≡ true
truncated_verifies_example = truncated_verifies crypto keys chain 1 chain_verifies
