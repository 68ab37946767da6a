-- ===== src/Store/Nonce.antt =====
-- Nonces: the in-memory `set_nx_ex` behind consume_order_nonce, consume_pqc_nonce and
-- consume_api_nonce of backend/services/redis_store.py.
use quantumsentinel_web.Prelude.{
  ℕ, ap, ◌+◌, ◌<◌, ◌≡◌, ◌≢◌, refl, true, false, not, Option, some, List, [], ◌∷◌, arith, All, ◌==◌,
  first_where, inl, inr, Bool-cases, lt→ltb,
}
use quantumsentinel_web.Prelude.First.{
  first_where-select_where, first_where-satisfies, first_where-append, first_where-append_new,
  first_where-update, first_where-update_other,
}
use quantumsentinel_web.Store.{
  Entry, MemStore, cleanup_mem, has_key, is_expired, is_live, put, mem_set_nx, mem_exists, mem_set,
  mem_get, mem_delete, mark, expiry,
}

-- What can be done to the memory between two uses of a nonce, each with its time.
pub data MemOp : Type 0 where
  set_nx : ℕ → ℕ → ℕ → MemOp
  look : ℕ → ℕ → MemOp
  read : ℕ → ℕ → MemOp
  write : ℕ → ℕ → Option ℕ → ℕ → MemOp
  delete : ℕ → MemOp

unfoldable pub apply : MemOp → MemStore → MemStore
apply (set_nx key ttl now) s = (mem_set_nx key ttl now s).0
apply (look key now) s = (mem_exists key now s).0
apply (read key now) s = (mem_get key now s).0
apply (write key value ttl now) s = mem_set key value ttl now s
apply (delete key) s = mem_delete key s

unfoldable pub apply_all : List MemOp → MemStore → MemStore
unfolding apply
apply_all [] s = s
apply_all (op ∷ ops) s = apply_all ops (apply op s)

-- The operation runs before `until`, and writes or deletes no entry of `key` but by `set_nx_ex`.
abbrev pub Leaves : ℕ → ℕ → MemOp → Type 0
Leaves key until (set_nx k ttl now) = now < until
Leaves key until (look k now) = now < until
Leaves key until (read k now) = now < until
Leaves key until (write k value ttl now) = k ≢ key
Leaves key until (delete k) = k ≢ key

abbrev Holds : ℕ → ℕ → List Entry → Type 0
Holds key until kv =
    (e : Entry) × (first_where (has_key key) kv ≡ some e) × (e.expire_at ≡ some until)

has_other : (key k : ℕ) (e : Entry) → k ≢ key → has_key k e ≡ true → has_key key e ≡ false
has_other key k e n h = ground arith

Holds-cleanup :
    (key until now : ℕ) (s : MemStore)
    → now < until
    → Holds key until s.kv
    → Holds key until (cleanup_mem now s).kv
unfolding cleanup_mem
Holds-cleanup key until now s l (e, found, at) = (
  e,
  first_where-select_where (has_key key) (λ x. not (is_expired now x)) e s.kv found
      (rw at (ground arith)),
  at,
)

Holds-put :
    (key until : ℕ) (entry : Entry) (kv : List Entry)
    → entry.key ≢ key
    → Holds key until kv
    → Holds key until (put entry kv)
unfolding put
Holds-put key until entry kv n (e, found, at) = (
  e,
  ground (
    arith,
    first_where-append (has_key key) e kv (entry ∷ []) found,
    first_where-update_other (has_key key) (has_key entry.key) e entry kv
        (λ x. has_other key entry.key x n) (ground arith) found,
  ),
  at,
)

Holds-put_same :
    (key until value : ℕ) (kv : List Entry)
    → Holds key until (put record { key = key; value = value; expire_at = some until } kv)
unfolding put
Holds-put_same key until value kv =
    let entry : Entry = record { key = key; value = value; expire_at = some until } in
    (
      entry,
      ground (
        arith,
        first_where-append_new (has_key key) entry kv,
        first_where-update (has_key key) entry kv,
      ),
      refl,
    )

set_nx-accepts :
    (key ttl now : ℕ) (s : MemStore)
    → (mem_set_nx key ttl now s).1 ≡ true
    → Holds key (now + ttl) (mem_set_nx key ttl now s).0.kv
unfolding mem_set_nx
set_nx-accepts key ttl now s h =
    ground (arith, Holds-put_same key (now + ttl) mark (cleanup_mem now s).kv)

Holds-live :
    (key until now : ℕ) (kv : List Entry)
    → now < until
    → Holds key until kv
    → is_live now (first_where (has_key key) kv) ≡ true
Holds-live key until now kv l (e, found, at) = rw (found, at) (lt→ltb now until l)

set_nx-refuses :
    (key until ttl now : ℕ) (s : MemStore)
    → now < until
    → Holds key until s.kv
    → mem_set_nx key ttl now s ≡ (cleanup_mem now s, false)
unfolding mem_set_nx
set_nx-refuses key until ttl now s l h =
    rw (Holds-live key until now (cleanup_mem now s).kv l (Holds-cleanup key until now s l h)) refl

set_nx-other :
    (key until k ttl now : ℕ) (s : MemStore)
    → k ≢ key
    → Holds key until (cleanup_mem now s).kv
    → Holds key until (mem_set_nx k ttl now s).0.kv
unfolding mem_set_nx
set_nx-other key until k ttl now s n h =
    elim (Bool-cases (is_live now (first_where (has_key k) (cleanup_mem now s).kv))) [
      | inl e ↦ rw e h
      | inr e ↦ rw e (
          Holds-put key until record { key = k; value = mark; expire_at = some (now + ttl) }
            (cleanup_mem now s).kv n h)
    ]

set_nx-keeps :
    (key until k ttl now : ℕ) (s : MemStore)
    → now < until
    → Holds key until s.kv
    → Holds key until (mem_set_nx k ttl now s).0.kv
set_nx-keeps key until k ttl now s l h =
    let kept = Holds-cleanup key until now s l h in
    elim (Bool-cases (k == key)) [
      | inl e ↦
          let same : k ≡ key = ground arith in
          rw same (rw (set_nx-refuses key until ttl now s l h) kept)
      | inr e ↦ set_nx-other key until k ttl now s (ground arith) kept
    ]

Holds-delete :
    (key until k : ℕ) (s : MemStore)
    → k ≢ key
    → Holds key until s.kv
    → Holds key until (mem_delete k s).kv
unfolding mem_delete
Holds-delete key until k s n (e, found, at) = (
  e,
  first_where-select_where (has_key key) (λ x. not (has_key k x)) e s.kv found
      (ground (arith, first_where-satisfies (has_key key) e s.kv found)),
  at,
)

apply-keeps :
    (key until : ℕ) (op : MemOp) (s : MemStore)
    → Leaves key until op
    → Holds key until s.kv
    → Holds key until (apply op s).kv
unfolding apply mem_exists mem_get mem_set
apply-keeps key until (set_nx k ttl now) s l h = set_nx-keeps key until k ttl now s l h
apply-keeps key until (look k now) s l h = Holds-cleanup key until now s l h
apply-keeps key until (read k now) s l h = Holds-cleanup key until now s l h
apply-keeps key until (write k value ttl now) s n h =
    Holds-put key until record { key = k; value = value; expire_at = expiry ttl now } s.kv n h
apply-keeps key until (delete k) s n h = Holds-delete key until k s n h

apply_all-keeps :
    (key until : ℕ) (ops : List MemOp) (s : MemStore)
    → All (Leaves key until) ops
    → Holds key until s.kv
    → Holds key until (apply_all ops s).kv
unfolding apply_all
apply_all-keeps key until [] s l h = h
apply_all-keeps key until (op ∷ ops) s l h =
    apply_all-keeps key until ops (apply op s) l.1 (apply-keeps key until op s l.0 h)

-- In the in-memory store of one process, which is used where Redis is not, a nonce that was accepted
-- is refused until its lifetime is over, whatever is done to the store in between: any number of uses
-- of this and other nonces and of reads within the lifetime, and of writes and deletions of other keys.
pub nonce_once :
    (key ttl now : ℕ) (s : MemStore) (ops : List MemOp) (ttl' now' : ℕ)
    → (mem_set_nx key ttl now s).1 ≡ true
    → All (Leaves key (now + ttl)) ops
    → now' < now + ttl
    → (mem_set_nx key ttl' now' (apply_all ops (mem_set_nx key ttl now s).0)).1 ≡ false
nonce_once key ttl now s ops ttl' now' accepted leaves early =
    let held =
      apply_all-keeps key (now + ttl) ops (mem_set_nx key ttl now s).0 leaves
        (set_nx-accepts key ttl now s accepted) in
    ap (λ r. r.1)
      (set_nx-refuses key (now + ttl) ttl' now' (apply_all ops (mem_set_nx key ttl now s).0) early
        held)
