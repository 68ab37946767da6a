-- ===== src/Audit/Written.antt =====
-- The chain that the appender writes, as verification reads it.
use quantumsentinel_web.Prelude.{
  ℕ, suc, ◌≡◌, refl, subst, arith, Bool, true, false, ◌==◌, Option, none, some, List, [], ◌∷◌, ◌++◌,
  All, Bool-cases, Option-cases, inl, inr, count_where, first_where,
}
use quantumsentinel_web.Prelude.First.{first_where-append, first_where-append_new}
use quantumsentinel_web.Security.Replay.{same_text_refl}
use quantumsentinel_web.Audit.{
  AuditLog, AuditChainLink, Tables, Crypto, genesis, event_of, entry_hash_of, link_of, violates,
  Stamped, insert_from, insert_chain_links, insert_each, write_chain_batch, write_all,
}
use quantumsentinel_web.Audit.Check.{
  Row, Keys, key_for, content_matches, link_failure, Verdict, Head, check_rows, join,
  audit_chain_status, verify_audit_chain, start_of, is_valid,
}
use quantumsentinel_web.Audit.Runs.{Runs, Runs-append, Runs-tip, full_rows}

has_id : ℕ → AuditLog → Bool
has_id id e = e.id == id

-- Every link has its event.
abbrev Joined : List AuditLog → List AuditChainLink → Type 0
Joined events links =
    All (λ l. (e : AuditLog) × (first_where (λ x. x.id == l.audit_log_id) events ≡ some e)) links

join-append :
    (events : List AuditLog) (e : AuditLog) (links : List AuditChainLink)
    → Joined events links
    → join (events ++ e ∷ []) links ≡ join events links
unfolding join
join-append events e [] j = refl
join-append events e (l ∷ links) j =
    let (x, found) = j.0 in
    rw
      (
        join-append events e links j.1,
        first_where-append (λ y. y.id == l.audit_log_id) x events (e ∷ []) found,
        found,
      )
      refl

Joined-append :
    (events : List AuditLog) (e : AuditLog) (links : List AuditChainLink)
    → Joined events links
    → Joined (events ++ e ∷ []) links
Joined-append events e [] j = tt
Joined-append events e (l ∷ links) j =
    let (x, found) = j.0 in
    (
      (x, first_where-append (λ y. y.id == l.audit_log_id) x events (e ∷ []) found),
      Joined-append events e links j.1,
    )

join_last :
    (events : List AuditLog) (links : List AuditChainLink) (l : AuditChainLink) (e : AuditLog)
    → first_where (λ x. x.id == l.audit_log_id) events ≡ some e
    → join events (links ++ l ∷ []) ≡ join events links ++ record { link = l; event = some e } ∷ []
unfolding join
join_last events [] l e f = rw f refl
join_last events (x ∷ links) l e f = rw (join_last events links l e f) refl

Joined-last :
    (events : List AuditLog) (links : List AuditChainLink) (l : AuditChainLink) (e : AuditLog)
    → first_where (λ x. x.id == l.audit_log_id) events ≡ some e
    → Joined events links
    → Joined events (links ++ l ∷ [])
Joined-last events [] l e f j = ((e, f), tt)
Joined-last events (x ∷ links) l e f j = (j.0, Joined-last events links l e f j.1)

some_injective : (s t : Tables) → some s ≡ some t → s ≡ t
some_injective s t e = ground arith

abbrev pub IsValid : Verdict → Type 0
IsValid v = is_valid v ≡ true

-- The key under which the entry's links are verified accepts what the server signs.
abbrev pub Registered : Crypto → Keys → Stamped → Type 0
Registered c keys s =
    (pk : ℕ) × ((l : AuditChainLink)
      → l.signing_key_id ≡ s.entry.signing_key_id
      → key_for keys l ≡ some pk)
    × ((m : List ℕ) → c.dsa_verify pk m (c.sign m) ≡ true)

module _ (c : Crypto) (keys : Keys) where
  -- The last of the rows checks where it points at the rows before it, which end with `k`.
  check-append :
      (n m : ℕ) (h k : List ℕ) (last : Option Head) (events : List AuditLog)
      (links : List AuditChainLink) (r : Row)
      → Runs n h links m k
      → link_failure c keys r k ≡ none
      → IsValid (check_rows c keys h last (join events links))
      → IsValid (check_rows c keys h last (join events links ++ r ∷ []))
  unfolding Runs check_rows join
  check-append n m h k last events [] r runs ok = rw (runs.1, ok) (λ v. refl)
  check-append n m h k last events (l ∷ links) r runs ok =
      let row : Row = record {
        link = l;
        event = first_where (λ e. e.id == l.audit_log_id) events;
      } in
      let more =
        check-append (suc n) m l.entry_hash k (some (l.sequence, l.entry_hash)) events links r
          runs.1 ok in
      elim (Option-cases (link_failure c keys row h)) [
        | inl e ↦ rw e more
        | inr (reason, e) ↦ rw e (λ v. absurd (ground arith))
      ]

  new_link_ok :
      (s : Stamped) (n : ℕ) (k : List ℕ)
      → Registered c keys s
      → link_failure c keys
          record { link = link_of c s.entry s.now n k; event = some (event_of c s.entry s.now) }
          k
        ≡ none
  unfolding link_failure content_matches
  new_link_ok s n k (pk, found, signs) =
      let l = link_of c s.entry s.now n k in
      rw
        (
          same_text_refl k,
          found l refl,
          same_text_refl (entry_hash_of c s.entry s.now k),
          signs (entry_hash_of c s.entry s.now k),
        )
        refl

  -- The tables hold a chain from the beginning to `m` and `k` that verifies.
  abbrev pub Chained : Tables → ℕ → List ℕ → Type 0
  Chained t m k =
      Runs 0 genesis t.links m k
      × Joined t.events t.links
      × IsValid (check_rows c keys genesis none (join t.events t.links))

  append-Chained :
      (known_user : Option ℕ → Bool) (t : Tables) (m : ℕ) (k : List ℕ) (s : Stamped)
      → Registered c keys s
      → violates known_user t (event_of c s.entry s.now) (link_of c s.entry s.now (suc m) k) ≡ false
      → Chained t m k
      → Chained
          record {
            events = t.events ++ event_of c s.entry s.now ∷ [];
            links = t.links ++ link_of c s.entry s.now (suc m) k ∷ [];
          }
          (suc m)
          (entry_hash_of c s.entry s.now k)
  unfolding violates
  append-Chained known_user t m k s reg nv (runs, joined, ok) =
      let e = event_of c s.entry s.now in
      let l = link_of c s.entry s.now (suc m) k in
      let fresh : count_where (λ x. x.id == e.id) t.events ≡ 0 = ground (arith, nv) in
      let found = first_where-append_new (λ x. x.id == e.id) e t.events fresh (ground arith) in
      (
        Runs-append 0 m genesis k t.links l refl runs,
        Joined-last (t.events ++ e ∷ []) t.links l e found
            (Joined-append t.events e t.links joined),
        rw (join_last (t.events ++ e ∷ []) t.links l e found, join-append t.events e t.links joined)
            (check-append 0 m genesis k none t.events t.links record { link = l; event = some e }
              runs (new_link_ok s (suc m) k reg) ok),
      )

  -- A transaction either writes the whole batch behind the chain or nothing.
  insert-Chained :
      (known_user : Option ℕ → Bool) (batch : List Stamped) (t written : Tables) (m : ℕ)
      (k : List ℕ)
      → All (Registered c keys) batch
      → Chained t m k
      → insert_from c known_user m k batch t ≡ some written
      → (n : ℕ) × (h : List ℕ) × Chained written n h
  unfolding insert_from
  insert-Chained known_user [] t written m k reg ch e =
      (m, k, subst (λ x. Chained x m k) (some_injective t written e) ch)
  insert-Chained known_user (s ∷ batch) t written m k reg ch e =
      let bad =
        violates known_user t (event_of c s.entry s.now) (link_of c s.entry s.now (suc m) k) in
      elim (Bool-cases bad) [
        | inl b ↦ absurd (ground (arith, rw b at e))
        | inr b ↦
            insert-Chained known_user batch _ written (suc m) (entry_hash_of c s.entry s.now k)
              reg.1 (append-Chained known_user t m k s reg.0 b ch) (rw b at e)
      ]

  links-Chained :
      (known_user : Option ℕ → Bool) (batch : List Stamped) (t written : Tables) (m : ℕ)
      (k : List ℕ)
      → All (Registered c keys) batch
      → Chained t m k
      → insert_chain_links c known_user batch t ≡ some written
      → (n : ℕ) × (h : List ℕ) × Chained written n h
  unfolding insert_chain_links
  links-Chained known_user batch t written m k reg ch e =
      let (at_m, at_k) = Runs-tip m k t.links ch.0 in
      insert-Chained known_user batch t written m k reg ch (rw (at_m, at_k) at e)

  abbrev IsChained : Tables → Type 0
  IsChained t = (n : ℕ) × (h : List ℕ) × Chained t n h

  each-Chained :
      (known_user : Option ℕ → Bool) (batch : List Stamped) (t : Tables)
      → All (Registered c keys) batch
      → IsChained t
      → IsChained (insert_each c known_user batch t).0
  unfolding insert_each
  each-Chained known_user [] t reg ch = ch
  each-Chained known_user (s ∷ batch) t reg (m, k, ch) =
      elim (Option-cases (insert_chain_links c known_user (s ∷ []) t)) [
        | inl e ↦ rw e (each-Chained known_user batch t reg.1 (m, k, ch))
        | inr (written, e) ↦ rw e (
            each-Chained known_user batch written reg.1
              (links-Chained known_user (s ∷ []) t written m k (reg.0, tt) ch e))
      ]

  batch-Chained :
      (known_user : Option ℕ → Bool) (batch : List Stamped) (t : Tables)
      → All (Registered c keys) batch
      → IsChained t
      → IsChained (write_chain_batch c known_user batch t).0
  unfolding write_chain_batch
  batch-Chained known_user batch t reg (m, k, ch) =
      elim (Option-cases (insert_chain_links c known_user batch t)) [
        | inl e ↦ rw e (each-Chained known_user batch t reg (m, k, ch))
        | inr (written, e) ↦ rw e (links-Chained known_user batch t written m k reg ch e)
      ]

  pub all-Chained :
      (known_user : Option ℕ → Bool) (batches : List (List Stamped)) (t : Tables)
      → All (All (Registered c keys)) batches
      → IsChained t
      → IsChained (write_all c known_user batches t)
  unfolding write_all
  all-Chained known_user [] t reg ch = ch
  all-Chained known_user (batch ∷ batches) t reg ch =
      all-Chained known_user batches _ reg.1 (batch-Chained known_user batch t reg.0 ch)

  chained-verifies : (t : Tables) → IsChained t → verify_audit_chain c keys t ≡ true
  unfolding verify_audit_chain audit_chain_status start_of
  chained-verifies t (m, k, ch) = rw (full_rows m k t ch.0) ch.2

abbrev pub no_tables : Tables
no_tables = record { events = []; links = [] }

-- Whatever batches of events are written, and whichever of them the database refuses, a full check of
-- the chain finds it valid, where the keys of the events verify what the server signs.
pub written_verifies :
    (c : Crypto) (keys : Keys) (known_user : Option ℕ → Bool) (batches : List (List Stamped))
    → All (All (Registered c keys)) batches
    → verify_audit_chain c keys (write_all c known_user batches no_tables) ≡ true
unfolding Runs join check_rows
written_verifies c keys known_user batches reg =
    chained-verifies c keys (write_all c known_user batches no_tables)
      (all-Chained c keys known_user batches no_tables reg (0, genesis, ((refl, refl), tt, refl)))
