-- ===== src/Audit/Tamper.antt =====
-- What the hash of the newest link says of the history behind it.
use quantumsentinel_web.Prelude.{
  ℕ, ◌≡◌, ◌≢◌, refl, sym, ◌∙◌, arith, true, Option, none, some, List, [], ◌∷◌, Bool-cases,
  Option-cases, inl, inr, map,
}
use quantumsentinel_web.Security.{same_text}
use quantumsentinel_web.Auth.Limiter.{same_text_eq}
use quantumsentinel_web.Audit.{
  AuditLog, AuditChainLink, Tables, Crypto, genesis, EventPayload, chain_timestamp, legacy_of,
}
use quantumsentinel_web.Audit.Check.{
  Row, Keys, key_for, any_form, content_matches, failure_with, failure_of, link_failure, Head,
  check_rows, rows_after, audit_chain_status, verify_audit_chain, start_of, is_valid,
}

-- The rows with the newest first, in front of `newer`.
unfoldable pub newest_first : List Row → List Row → List Row
newest_first [] older = older
newest_first (r ∷ rows) older = newest_first rows (r ∷ older)

unfoldable pub tip : List Row → List ℕ
tip [] = genesis
tip (r ∷ rows) = r.link.entry_hash

-- The id and the content of a row's event.
abbrev pub entry : Row → Option (ℕ × EventPayload)
entry r = elim r.event [ none ↦ none | some e ↦ some (e.id, e.payload) ]

-- The events behind a chain, the newest first.
unfoldable pub history : Tables → List (Option (ℕ × EventPayload))
unfolding newest_first rows_after
history t = map entry (newest_first (rows_after 0 t) [])

-- The hash of the newest link.
unfoldable pub newest_hash : Tables → List ℕ
unfolding newest_first rows_after tip
newest_hash t = tip (newest_first (rows_after 0 t) [])

-- Two contents with one hash are the same, and none hashes to the beginning of a chain.
pub record CollisionFree (c : Crypto) : Type 0 where
  pub same :
      (i j s t : ℕ) (p q : EventPayload) (g h : List ℕ)
      → c.chain_hash i s p g ≡ c.chain_hash j t q h
      → (i ≡ j) × (p ≡ q) × (g ≡ h)
  pub begins : (i s : ℕ) (p : EventPayload) (g : List ℕ) → c.chain_hash i s p g ≢ genesis

module _ (c : Crypto) (keys : Keys) where
  -- Each row verifies in front of the older ones.
  abbrev Backed : List Row → Type 0
  unfolding tip
  Backed [] = Unit
  Backed (r ∷ rows) = (link_failure c keys r (tip rows) ≡ none) × Backed rows

  valid-Backed :
      (last : Option Head) (rows older : List Row)
      → is_valid (check_rows c keys (tip older) last rows) ≡ true
      → Backed older
      → Backed (newest_first rows older)
  unfolding check_rows newest_first tip Backed
  valid-Backed last [] older v b = b
  valid-Backed last (r ∷ rows) older v b = elim (Option-cases (link_failure c keys r (tip older))) [
    | inl e ↦
        valid-Backed (some (r.link.sequence, r.link.entry_hash)) rows (r ∷ older) (rw e at v) (e, b)
    | inr (reason, e) ↦ absurd (ground (arith, rw e at v))
  ]

  -- The event of a row that verifies, and the text of its instant that was hashed.
  abbrev Hashed : Row → List ℕ → Type 0
  Hashed r previous =
      (e : AuditLog) × (r.event ≡ some e)
      × ((ts : ℕ) × (c.chain_hash e.id ts e.payload previous ≡ r.link.entry_hash))

  some_form :
      (e : AuditLog) (h previous : List ℕ) (forms : List ℕ)
      → any_form (λ ts. same_text (c.chain_hash e.id ts e.payload previous) h) forms ≡ true
      → (ts : ℕ) × (c.chain_hash e.id ts e.payload previous ≡ h)
  unfolding any_form
  some_form e h previous [] v = absurd (ground arith)
  some_form e h previous (ts ∷ forms) v =
      elim (Bool-cases (same_text (c.chain_hash e.id ts e.payload previous) h)) [
        | inl b ↦ (ts, same_text_eq _ h b)
        | inr b ↦ some_form e h previous forms (rw b at v)
      ]

  content_hashed :
      (e : AuditLog) (l : AuditChainLink) (previous : List ℕ)
      → content_matches c e l previous ≡ true
      → (ts : ℕ) × (c.chain_hash e.id ts e.payload previous ≡ l.entry_hash)
  unfolding content_matches
  content_hashed e l previous v =
      let now = chain_timestamp c e.created_at in
      elim (Bool-cases (same_text (c.chain_hash e.id now e.payload previous) l.entry_hash)) [
        | inl b ↦ (now, same_text_eq _ l.entry_hash b)
        | inr b ↦ some_form e l.entry_hash previous (legacy_of c e.created_at) (rw b at v)
      ]

  with_key :
      (e : AuditLog) (l : AuditChainLink) (previous : List ℕ) (pk : Option ℕ)
      → failure_with c e l previous pk ≡ none
      → content_matches c e l previous ≡ true
  with_key e l previous none v = absurd (ground arith)
  with_key e l previous (some pk) v = ground arith

  no_failure-Hashed :
      (l : AuditChainLink) (event : Option AuditLog) (previous : List ℕ)
      → failure_of c keys l previous event ≡ none
      → Hashed record { link = l; event = event } previous
  no_failure-Hashed l none previous v = absurd (ground arith)
  no_failure-Hashed l (some e) previous v = elim (Bool-cases (same_text l.previous_hash previous)) [
    | inl b ↦
        (e, refl, content_hashed e l previous (with_key e l previous (key_for keys l) (rw b at v)))
    | inr b ↦ absurd (ground (arith, rw b at v))
  ]

  row-Hashed :
      (r : Row) (previous : List ℕ) → link_failure c keys r previous ≡ none → Hashed r previous
  unfolding link_failure
  row-Hashed r previous v = no_failure-Hashed r.link r.event previous v

module _ (c : Crypto) (law : CollisionFree c) (keys other : Keys) where
  same_tip :
      (xs ys : List Row)
      → Backed c keys xs
      → Backed c other ys
      → tip xs ≡ tip ys
      → map entry xs ≡ map entry ys
  unfolding tip Backed
  same_tip [] [] b d h = refl
  same_tip [] (y ∷ ys) b d h =
      let (e, found, (ts, hashed)) = row-Hashed c other y (tip ys) d.0 in
      absurd (law.begins e.id ts e.payload (tip ys) (hashed ∙ sym h))
  same_tip (x ∷ xs) [] b d h =
      let (e, found, (ts, hashed)) = row-Hashed c keys x (tip xs) b.0 in
      absurd (law.begins e.id ts e.payload (tip xs) (hashed ∙ h))
  same_tip (x ∷ xs) (y ∷ ys) b d h =
      let (e, found, (ts, hashed)) = row-Hashed c keys x (tip xs) b.0 in
      let (f, found2, (us, hashed2)) = row-Hashed c other y (tip ys) d.0 in
      let (ids, payloads, tips) =
        law.same e.id f.id ts us e.payload f.payload (tip xs) (tip ys) (hashed ∙ h ∙ sym hashed2) in
      rw (found, found2, ids, payloads, same_tip xs ys b.1 d.1 tips) refl

-- The hash of the newest link stands for the whole history: two chains that both verify, each with its
-- own keys, and whose newest links have the same hash, are of the same events with the same contents in
-- the same order, where no two contents have one hash.
pub same_hash_same_history :
    (c : Crypto) (keys other : Keys) (s t : Tables)
    → CollisionFree c
    → verify_audit_chain c keys s ≡ true
    → verify_audit_chain c other t ≡ true
    → newest_hash s ≡ newest_hash t
    → history s ≡ history t
unfolding verify_audit_chain audit_chain_status start_of history newest_hash tip Backed
same_hash_same_history c keys other s t law v w h =
    same_tip c law keys other (newest_first (rows_after 0 s) []) (newest_first (rows_after 0 t) [])
      (valid-Backed c keys none (rows_after 0 s) [] v tt)
      (valid-Backed c other none (rows_after 0 t) [] w tt) h
