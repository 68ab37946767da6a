-- ===== src/Audit/Parts.antt =====
-- A chain cut at a sequence: checks from a verified head, and a chain without its newest links.
use quantumsentinel_web.Prelude.{
  ℕ, suc, ◌<◌, ◌≡◌, refl, sym, ◌∙◌, ap, arith, true, false, ltb, leb, ◌==◌, Option, none, some,
  List, [], ◌∷◌, ◌++◌, Bool-cases, Option-cases, inl, inr, ◌⊎◌, first_where, select_where, order_by,
}
use quantumsentinel_web.Prelude.Sorted.{Above, Ascends, select-order_by, Ascends-order_by}
use quantumsentinel_web.Audit.{AuditLog, AuditChainLink, Tables, Crypto, genesis}
use quantumsentinel_web.Audit.Check.{
  LinkFailure, Row, Keys, link_failure, Verdict, valid, invalid, Head, or_rest, check_rows, join,
  by_sequence, rows_after, hash_is, audit_chain_status, verify_audit_chain, start_of, is_valid,
}

select_none :
    (n : ℕ) (xs : List AuditChainLink)
    → Above by_sequence (suc n) xs
    → (select_where (λ l. leb l.sequence n) xs ≡ [])
      × (select_where (λ l. ltb n l.sequence) xs ≡ xs)
unfolding select_where
select_none n [] a = (refl, refl)
select_none n (x ∷ xs) a = ground (arith, select_none n xs a.1)

Above-suc :
    (n k : ℕ) (xs : List AuditChainLink)
    → n < k
    → Above by_sequence k xs
    → Above by_sequence (suc n) xs
Above-suc n k [] h a = tt
Above-suc n k (x ∷ xs) h a = (omega (arith, h, a.0), Above-suc n k xs h a.1)

-- Links in the order of their sequences are those up to `n` and then those after it.
split_at :
    (n : ℕ) (xs : List AuditChainLink)
    → Ascends by_sequence xs
    → xs ≡ select_where (λ l. leb l.sequence n) xs ++ select_where (λ l. ltb n l.sequence) xs
unfolding select_where
split_at n [] s = refl
split_at n (x ∷ xs) s = elim (Bool-cases (leb x.sequence n)) [
  | inl e ↦
      let low : ltb n x.sequence ≡ false = ground arith in rw (e, low, sym (split_at n xs s.1)) refl
  | inr e ↦
      let high : ltb n x.sequence ≡ true = ground arith in
      let (none_low, all_high) =
        select_none n xs (Above-suc n x.sequence xs (ground (arith, high)) s.0) in
      rw (e, high, none_low, all_high) refl
]

join-append :
    (events : List AuditLog) (xs ys : List AuditChainLink)
    → join events (xs ++ ys) ≡ join events xs ++ join events ys
unfolding join
join-append events [] ys = refl
join-append events (x ∷ xs) ys = rw (join-append events xs ys) refl

-- The rows up to a sequence.
unfoldable pub rows_upto : ℕ → Tables → List Row
unfolding join order_by select_where
rows_upto n t = join t.events (
    order_by by_sequence
      (select_where (λ l. leb l.sequence n) (select_where (λ l. ltb 0 l.sequence) t.links)))

select_after :
    (n : ℕ) (xs : List AuditChainLink)
    → select_where (λ l. ltb n l.sequence) (select_where (λ l. ltb 0 l.sequence) xs)
      ≡ select_where (λ l. ltb n l.sequence) xs
unfolding select_where
select_after n [] = refl
select_after n (x ∷ xs) = ground (arith, select_after n xs)

rows_split : (n : ℕ) (t : Tables) → rows_after 0 t ≡ rows_upto n t ++ rows_after n t
unfolding rows_after rows_upto
rows_split n t =
    let links = select_where (λ l. ltb 0 l.sequence) t.links in
    let sorted = order_by by_sequence links in
    ap (join t.events) (
      split_at n sorted (Ascends-order_by by_sequence links)
      ∙ rw
          (
            select-order_by by_sequence (λ l. leb l.sequence n) links,
            select-order_by by_sequence (λ l. ltb n l.sequence) links,
            select_after n t.links,
          )
          refl)
    ∙ join-append t.events (order_by by_sequence (select_where (λ l. leb l.sequence n) links))
        (order_by by_sequence (select_where (λ l. ltb n l.sequence) t.links))

-- The sequence that failed and why.
abbrev pub failure : Verdict → Option (ℕ × LinkFailure)
failure (valid last) = none
failure (invalid sequence reason) = some (sequence, reason)

module _ (c : Crypto) (keys : Keys) where
  failure_of_rest :
      (l : AuditChainLink) (f : Option LinkFailure) (v w : Verdict)
      → failure v ≡ failure w
      → failure (or_rest l f v) ≡ failure (or_rest l f w)
  failure_of_rest l none v w h = h
  failure_of_rest l (some reason) v w h = refl

  -- What was checked last does not change whether and where a check fails.
  any_last :
      (h : List ℕ) (last other : Option Head) (rows : List Row)
      → failure (check_rows c keys h last rows) ≡ failure (check_rows c keys h other rows)
  unfolding check_rows
  any_last h last other [] = refl
  any_last h last other (r ∷ rows) = refl

  -- What was checked last, if anything, has the hash that must precede.
  abbrev Follows : List ℕ → Option Head → Type 0
  Follows h last = (last ≡ none) ⊎ ((m : ℕ) × (last ≡ some (m, h)))

  none_left :
      (h g : List ℕ) (n : ℕ) (last : Option Head)
      → valid last ≡ valid (some (n, g))
      → Follows h last
      → h ≡ g
  none_left h g n last v (inl e) = absurd (ground arith)
  none_left h g n last v (inr (m, e)) = ground arith

  -- Rows that verify hand their last hash on.
  check_split :
      (h g : List ℕ) (n : ℕ) (last : Option Head) (xs ys : List Row)
      → check_rows c keys h last xs ≡ valid (some (n, g))
      → Follows h last
      → failure (check_rows c keys h last (xs ++ ys)) ≡ failure (check_rows c keys g none ys)
  unfolding check_rows
  check_split h g n last [] ys v k = rw (none_left h g n last v k) (any_last g last none ys)
  check_split h g n last (r ∷ rows) ys v k = elim (Option-cases (link_failure c keys r h)) [
    | inl e ↦ rw e (
        check_split r.link.entry_hash g n (some (r.link.sequence, r.link.entry_hash)) rows ys
          (rw e at v) (inr (r.link.sequence, refl)))
    | inr (reason, e) ↦ absurd (ground (arith, rw e at v))
  ]

  prefix_valid :
      (h : List ℕ) (last : Option Head) (xs ys : List Row)
      → is_valid (check_rows c keys h last (xs ++ ys)) ≡ true
      → is_valid (check_rows c keys h last xs) ≡ true
  unfolding check_rows
  prefix_valid h last [] ys v = refl
  prefix_valid h last (r ∷ rows) ys v = elim (Option-cases (link_failure c keys r h)) [
    | inl e ↦ rw e (prefix_valid r.link.entry_hash _ rows ys (rw e at v))
    | inr (reason, e) ↦ absurd (ground (arith, rw e at v))
  ]

-- A check from a verified head fails at the same link and for the same reason as a full check, or is
-- valid where that is, as long as the links up to the head still verify and end with it, or the link
-- at the head's sequence no longer has the head's hash.
pub incremental_exact :
    (c : Crypto) (keys : Keys) (t : Tables) (n : ℕ) (h : List ℕ)
    → (hash_is h (first_where (λ l. l.sequence == n) t.links) ≡ true
        → check_rows c keys genesis none (rows_upto n t) ≡ valid (some (n, h)))
    → failure (audit_chain_status c keys false (some (n, h)) t).verdict
      ≡ failure (audit_chain_status c keys true none t).verdict
unfolding audit_chain_status start_of
incremental_exact c keys t n h v =
    elim (Bool-cases (hash_is h (first_where (λ l. l.sequence == n) t.links))) [
      | inr e ↦ rw e refl
      | inl e ↦
          rw (e, rows_split n t)
            (sym (
              check_split c keys genesis h n none (rows_upto n t) (rows_after n t) (v e)
                (inl refl)))
    ]

-- The chain without the links after a sequence.
abbrev pub truncated : ℕ → Tables → Tables
truncated n t = record t { links = select_where (λ l. leb l.sequence n) t.links }

select_swap :
    (n : ℕ) (xs : List AuditChainLink)
    → select_where (λ l. ltb 0 l.sequence) (select_where (λ l. leb l.sequence n) xs)
      ≡ select_where (λ l. leb l.sequence n) (select_where (λ l. ltb 0 l.sequence) xs)
unfolding select_where
select_swap n [] = refl
select_swap n (x ∷ xs) = ground (arith, select_swap n xs)

-- Where a chain verifies, it still does so in full after its newest links are deleted, from any
-- sequence on: a full check alone does not see that the end is gone.
pub truncated_verifies :
    (c : Crypto) (keys : Keys) (t : Tables) (n : ℕ)
    → verify_audit_chain c keys t ≡ true
    → verify_audit_chain c keys (truncated n t) ≡ true
unfolding verify_audit_chain audit_chain_status start_of rows_after rows_upto
truncated_verifies c keys t n v =
    rw (select_swap n t.links)
      (prefix_valid c keys genesis none (rows_upto n t) (rows_after n t) (rw (rows_split n t) at v))
