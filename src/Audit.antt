-- ===== src/Audit.antt =====
-- The audit chain (backend/services/security_service.py: the appender, _insert_chain_links,
-- audit_chain_status, _link_failure). SHA-256 of the canonical JSON, the renderings of an instant and
-- the ML-DSA signatures are the fields of `Crypto`; hashes are lists of character
-- codes, other text and JSON values are numbers, an empty metadata object is 0. The server's key and its id do not change while a process runs.
pub mod Check
pub mod Runs
pub mod Written
pub mod Tamper
pub mod Parts
use quantumsentinel_web.Prelude.{
  ℕ, suc, ◌+◌, Bool, true, false, not, ◌&&◌, ◌||◌, ltb, ◌==◌, if◌then◌else◌, Option, none, some,
  List, [], ◌∷◌, ◌++◌, length, take, drop, count_where, first_where, replicate,
}
use quantumsentinel_web.Security.{same_text}

-- What is signed and hashed of an event.
pub record EventPayload : Type 0 where
  pub action : ℕ
  pub user_id : Option ℕ
  pub resource_type : Option ℕ
  pub resource_id : Option ℕ
  pub metadata : ℕ

-- A row of audit_logs; the payload is its columns, with `metadata_json or {}`.
pub record AuditLog : Type 0 where
  pub id : ℕ
  pub payload : EventPayload
  pub pqc_signature : ℕ
  pub signing_key_id : Option ℕ
  pub created_at : Option ℕ

-- A row of audit_chain_links.
pub record AuditChainLink : Type 0 where
  pub sequence : ℕ
  pub audit_log_id : ℕ
  pub previous_hash : List ℕ
  pub entry_hash : List ℕ
  pub checkpoint_signature : ℕ
  pub signing_key_id : Option ℕ

pub record Tables : Type 0 where
  pub events : List AuditLog
  pub links : List AuditChainLink

pub record Crypto : Type 0 where
  -- _chain_hash of an id, an instant's text, a payload and the previous hash
  pub chain_hash : ℕ → ℕ → EventPayload → List ℕ → List ℕ
  -- _chain_timestamp and _legacy_chain_timestamps of an instant
  pub timestamp : ℕ → ℕ
  pub legacy_timestamps : ℕ → List ℕ
  -- server_identity.sign and pqc.dsa_verify
  pub sign : List ℕ → ℕ
  pub dsa_verify : ℕ → List ℕ → ℕ → Bool

-- "0" * 64
abbrev pub genesis : List ℕ
genesis = replicate 64 48

abbrev pub chain_timestamp : Crypto → Option ℕ → ℕ
chain_timestamp c none = 0
chain_timestamp c (some instant) = c.timestamp instant

abbrev pub legacy_of : Crypto → Option ℕ → List ℕ
legacy_of c none = []
legacy_of c (some instant) = c.legacy_timestamps instant

-- An event that waits to be appended; `done` and `error` are what the appender returns.
pub record PendingAudit : Type 0 where
  pub log_id : ℕ
  pub payload : EventPayload
  pub signature : ℕ
  pub signing_key_id : Option ℕ

-- What write_audit_log queues; `sign_payload` signs the JSON text of the payload.
unfoldable pub pending_of : (EventPayload → ℕ) → ℕ → EventPayload → Option ℕ → PendingAudit
pending_of sign_payload log_id payload key_id = record {
  log_id = log_id;
  payload = payload;
  signature = sign_payload payload;
  signing_key_id = key_id;
}

-- ORDER BY sequence DESC LIMIT 1
abbrev later_link : AuditChainLink → Option AuditChainLink → AuditChainLink
later_link l none = l
later_link l (some m) = if ltb l.sequence m.sequence then m else l

unfoldable pub newest : List AuditChainLink → Option AuditChainLink
newest [] = none
newest (l ∷ links) = some (later_link l (newest links))

abbrev pub last_sequence : Option AuditChainLink → ℕ
last_sequence none = 0
last_sequence (some l) = l.sequence

abbrev pub last_hash : Option AuditChainLink → List ℕ
last_hash none = genesis
last_hash (some l) = l.entry_hash

module _ (c : Crypto) where
  abbrev pub event_of : PendingAudit → ℕ → AuditLog
  event_of p now = record {
    id = p.log_id;
    payload = p.payload;
    pqc_signature = p.signature;
    signing_key_id = p.signing_key_id;
    created_at = some now;
  }

  abbrev pub entry_hash_of : PendingAudit → ℕ → List ℕ → List ℕ
  entry_hash_of p now previous = c.chain_hash p.log_id (c.timestamp now) p.payload previous

  abbrev pub link_of : PendingAudit → ℕ → ℕ → List ℕ → AuditChainLink
  link_of p now sequence previous = record {
    sequence = sequence;
    audit_log_id = p.log_id;
    previous_hash = previous;
    entry_hash = entry_hash_of p now previous;
    checkpoint_signature = c.sign (entry_hash_of p now previous);
    signing_key_id = p.signing_key_id;
  }

-- Keys and constraints of the tables; `known_user` is the foreign key on users.
unfoldable pub violates : (Option ℕ → Bool) → Tables → AuditLog → AuditChainLink → Bool
unfolding count_where same_text
violates known_user t e l =
    (not (known_user e.payload.user_id) || not (count_where (λ x. x.id == e.id) t.events == 0))
    || (not (count_where (λ x. same_text x.entry_hash l.entry_hash) t.links == 0)
        || (not (count_where (λ x. x.audit_log_id == l.audit_log_id) t.links == 0)
            || not (count_where (λ x. x.sequence == l.sequence) t.links == 0)))

-- A batch with the instants at which its events are stamped.
pub record Stamped : Type 0 where
  pub entry : PendingAudit
  pub now : ℕ

module _ (c : Crypto) (known_user : Option ℕ → Bool) where
  -- The events and links of a batch in one transaction; `none` where a constraint refuses one.
  unfoldable pub insert_from : ℕ → List ℕ → List Stamped → Tables → Option Tables
  unfolding violates
  insert_from sequence previous [] t = some t
  insert_from sequence previous (s ∷ batch) t =
      let e = event_of c s.entry s.now in
      let l = link_of c s.entry s.now (suc sequence) previous in
      let written =
        insert_from (suc sequence) l.entry_hash batch
          record { events = t.events ++ e ∷ []; links = t.links ++ l ∷ [] } in
      if violates known_user t e l then none else written

  unfoldable pub insert_chain_links : List Stamped → Tables → Option Tables
  unfolding insert_from newest
  insert_chain_links batch t =
      insert_from (last_sequence (newest t.links)) (last_hash (newest t.links)) batch t

  abbrev one_by_one : Option Tables → Tables → Tables × Bool
  one_by_one none t = (t, false)
  one_by_one (some written) t = (written, true)

  -- Each append alone: whether it was written.
  unfoldable pub insert_each : List Stamped → Tables → Tables × List Bool
  unfolding insert_chain_links
  insert_each [] t = (t, [])
  insert_each (s ∷ batch) t =
      let (t', done) = one_by_one (insert_chain_links (s ∷ []) t) t in
      let (t'', rest) = insert_each batch t' in (t'', done ∷ rest)

  abbrev all_written : List Stamped → List Bool
  all_written [] = []
  all_written (s ∷ batch) = true ∷ all_written batch

  abbrev write_or_each : Option Tables → List Stamped → Tables → Tables × List Bool
  write_or_each (some written) batch t = (written, all_written batch)
  write_or_each none batch t = insert_each batch t

  -- _write_chain_batch; a batch of one that failed is not tried again, which would fail alike.
  unfoldable pub write_chain_batch : List Stamped → Tables → Tables × List Bool
  unfolding insert_chain_links insert_each
  write_chain_batch batch t = write_or_each (insert_chain_links batch t) batch t

  -- _AUDIT_BATCH_MAX
  abbrev pub audit_batch_max : ℕ
  audit_batch_max = 8

  -- One turn of a leader: a batch is cut from the queue and written.
  unfoldable pub lead : List Stamped → Tables → List Stamped × Tables × List Bool
  unfolding write_chain_batch
  lead queue t =
      let r = write_chain_batch (take audit_batch_max queue) t in
      (drop audit_batch_max queue, r.0, r.1)

  -- Batches one after another, by whichever process holds the lock.
  unfoldable pub write_all : List (List Stamped) → Tables → Tables
  unfolding write_chain_batch
  write_all [] t = t
  write_all (batch ∷ batches) t = write_all batches (write_chain_batch batch t).0
