-- ===== src/Audit/Check.antt =====
-- Verification of the chain: _link_failure, and audit_chain_status in full and from a verified head.
-- The counts and the mode of a check are with its verdict; `keys` is the table of signing keys.
use quantumsentinel_web.Prelude.{
  ℕ, suc, ◌+◌, Bool, true, false, not, ◌||◌, ltb, leb, ◌==◌, if◌then◌else◌, Option, none, some,
  List, [], ◌∷◌, length, count_where, first_where, select_where, order_by,
}
use quantumsentinel_web.Security.{same_text}
use quantumsentinel_web.Audit.{
  AuditLog, AuditChainLink, Tables, Crypto, genesis, chain_timestamp, legacy_of,
}

pub data LinkFailure : Type 0 where
  event_missing not_the_preceding no_verification_key content_mismatch checkpoint_invalid :
      LinkFailure

-- A link and its event, by the outer join.
pub record Row : Type 0 where
  pub link : AuditChainLink
  pub event : Option AuditLog

abbrev or_key : Option ℕ → Option ℕ → Option ℕ
or_key none fallback = fallback
or_key (some pk) fallback = some pk

unfoldable pub any_form : (ℕ → Bool) → List ℕ → Bool
any_form p [] = false
any_form p (t ∷ ts) = p t || any_form p ts

-- Public keys by their id, and the server's own.
pub record Keys : Type 0 where
  pub history : ℕ → Option ℕ
  pub server : Option ℕ

abbrev key_of_id : Keys → Option ℕ → Option ℕ
key_of_id keys none = none
key_of_id keys (some id) = keys.history id

abbrev pub key_for : Keys → AuditChainLink → Option ℕ
key_for keys l = or_key (key_of_id keys l.signing_key_id) keys.server

module _ (c : Crypto) where
  -- The event hashes to the entry, with its instant in the present or in an earlier form.
  unfoldable pub content_matches : AuditLog → AuditChainLink → List ℕ → Bool
  unfolding any_form same_text
  content_matches e l previous =
      same_text (c.chain_hash e.id (chain_timestamp c e.created_at) e.payload previous) l.entry_hash
      || any_form (λ ts. same_text (c.chain_hash e.id ts e.payload previous) l.entry_hash)
          (legacy_of c e.created_at)

  abbrev pub failure_with : AuditLog → AuditChainLink → List ℕ → Option ℕ → Option LinkFailure
  failure_with e l previous none = some no_verification_key
  failure_with e l previous (some pk) =
      if not (content_matches e l previous)
      then some content_mismatch
      else if not (c.dsa_verify pk l.entry_hash l.checkpoint_signature)
      then some checkpoint_invalid
      else none

  abbrev pub failure_of : Keys → AuditChainLink → List ℕ → Option AuditLog → Option LinkFailure
  failure_of keys l previous none = some event_missing
  failure_of keys l previous (some e) =
      if not (same_text l.previous_hash previous)
      then some not_the_preceding
      else failure_with e l previous (key_for keys l)

  unfoldable pub link_failure : Keys → Row → List ℕ → Option LinkFailure
  unfolding content_matches
  link_failure keys r previous = failure_of keys r.link previous r.event

-- A link's sequence and hash.
abbrev pub Head : Type 0
Head = ℕ × List ℕ

-- The newest link that was checked, or the first that failed.
pub data Verdict : Type 0 where
  valid : Option Head → Verdict
  invalid : ℕ → LinkFailure → Verdict

abbrev pub is_valid : Verdict → Bool
is_valid (valid last) = true
is_valid (invalid sequence reason) = false

abbrev pub or_rest : AuditChainLink → Option LinkFailure → Verdict → Verdict
or_rest l none rest = rest
or_rest l (some reason) rest = invalid l.sequence reason

module _ (c : Crypto) (keys : Keys) where
  unfoldable pub check_rows : List ℕ → Option Head → List Row → Verdict
  unfolding link_failure
  check_rows previous last [] = valid last
  check_rows previous last (r ∷ rows) =
      let rest = check_rows r.link.entry_hash (some (r.link.sequence, r.link.entry_hash)) rows in
      or_rest r.link (link_failure c keys r previous) rest

-- LEFT OUTER JOIN audit_logs ON id = audit_log_id
unfoldable pub join : List AuditLog → List AuditChainLink → List Row
unfolding first_where
join events [] = []
join events (l ∷ links) =
    record { link = l; event = first_where (λ e. e.id == l.audit_log_id) events }
    ∷ join events links

abbrev pub by_sequence : AuditChainLink → ℕ
by_sequence l = l.sequence

-- WHERE sequence > after ORDER BY sequence
unfoldable pub rows_after : ℕ → Tables → List Row
unfolding join order_by select_where
rows_after after t =
    join t.events (order_by by_sequence (select_where (λ l. ltb after l.sequence) t.links))

-- What the process remembers of the chain of a database.
pub record VerifiedChain : Type 0 where
  pub head : Option Head
  pub full_verified_at : Option ℕ
  pub generation : ℕ

abbrev pub hash_is : List ℕ → Option AuditChainLink → Bool
hash_is h none = false
hash_is h (some l) = same_text l.entry_hash h

-- Where a check starts: the sequence after which, and the hash that must precede.
unfoldable pub start_of : Bool → Option Head → Tables → Head
unfolding first_where
start_of true head t = (0, genesis)
start_of false none t = (0, genesis)
start_of false (some (sequence, h)) t =
    if hash_is h (first_where (λ l. l.sequence == sequence) t.links)
    then (sequence, h)
    else (0, genesis)

unfoldable pub unchained : Tables → ℕ
unfolding count_where
unchained t = count_where (λ e. count_where (λ l. l.audit_log_id == e.id) t.links == 0) t.events

abbrev newer_head : Option Head → Head → Option Head
newer_head none last = some last
newer_head (some head) last = if leb head.0 last.0 then some last else some head

abbrev head_after : Option Head → Option Head → Option Head
head_after head none = head
head_after head (some last) = newer_head head last

-- The state after a verdict. `generation` was read when the check began, `state` is read when it ends;
-- other checks may have ended in between.
unfoldable pub conclude : ℕ → Bool → ℕ → Verdict → VerifiedChain → VerifiedChain
conclude started_at full generation (invalid sequence reason) state = record state {
  head = none;
  generation = suc state.generation;
}
conclude started_at full generation (valid last) state =
    if state.generation == generation
    then record state {
      full_verified_at = if full then some started_at else state.full_verified_at;
      head = head_after state.head last;
    }
    else state

pub record ChainStatus : Type 0 where
  pub verdict : Verdict
  pub link_count : ℕ
  pub unchained_events : ℕ
  pub full_mode : Bool
  pub verified_from_sequence : ℕ

module _ (c : Crypto) (keys : Keys) where
  unfoldable pub audit_chain_status : Bool → Option Head → Tables → ChainStatus
  unfolding check_rows rows_after start_of unchained
  audit_chain_status full head t =
      let (after, previous) = start_of full head t in
      record {
        verdict = check_rows c keys previous none (rows_after after t);
        link_count = length t.links;
        unchained_events = unchained t;
        full_mode = after == 0;
        verified_from_sequence = after + 1;
      }

  unfoldable pub verify_audit_chain : Tables → Bool
  unfolding audit_chain_status
  verify_audit_chain t = is_valid (audit_chain_status true none t).verdict
