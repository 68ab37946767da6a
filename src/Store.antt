-- ===== src/Store.antt =====
-- The shared security state (backend/services/redis_store.py): the in-memory store that stands in
-- for Redis. What Redis answered to a call is an argument; what it keeps is not modelled.
pub mod Nonce
use quantumsentinel_web.Prelude.{
  ℕ, ◌+◌, Bool, true, false, not, ◌&&◌, ◌||◌, ltb, ◌==◌, if◌then◌else◌, Option, none, some, List,
  [], ◌∷◌, ◌++◌, update_where, count_where, select_where, first_where,
}

-- An element of `_mem_kv`: `none` is an expiry of infinity.
pub record Entry : Type 0 where
  pub key : ℕ
  pub value : ℕ
  pub expire_at : Option ℕ

pub record MemNonce : Type 0 where
  pub nonce : ℕ
  pub until : ℕ

pub record MemStore : Type 0 where
  pub kv : List Entry
  pub nonces : List MemNonce
  pub kill_switches : List ℕ

-- What the call of Redis came to.
pub data Reply (A : Type 0) : Type 0 where
  no_client : Reply A
  answered : A → Reply A
  failing : Reply A

pub data Outcome (A : Type 0) : Type 0 where
  returned : A → Outcome A
  raised : Outcome A

abbrev pub is_expired : ℕ → Entry → Bool
is_expired now e = elim e.expire_at [ none ↦ false | some at ↦ not (at == 0) && ltb at now ]

unfoldable pub cleanup_mem : ℕ → MemStore → MemStore
cleanup_mem now s = record s {
  kv = select_where (λ e. not (is_expired now e)) s.kv;
  nonces = select_where (λ n. not (ltb n.until now)) s.nonces;
}

abbrev pub has_key : ℕ → Entry → Bool
has_key key e = e.key == key

-- `_mem_kv[key] = entry`
unfoldable pub put : Entry → List Entry → List Entry
put entry kv =
    if count_where (has_key entry.key) kv == 0
    then kv ++ entry ∷ []
    else update_where (has_key entry.key) (λ e. entry) kv

-- The value that the store keeps for a key that is only marked as used: "1".
abbrev pub mark : ℕ
mark = 1

abbrev pub is_live : ℕ → Option Entry → Bool
is_live now found = elim found [
  | none ↦ false
  | some e ↦ elim e.expire_at [ none ↦ true | some at ↦ ltb now at ]
]

unfoldable pub mem_set_nx : ℕ → ℕ → ℕ → MemStore → MemStore × Bool
unfolding cleanup_mem put
mem_set_nx key ttl now s =
    let s' = cleanup_mem now s in
    if is_live now (first_where (has_key key) s'.kv) then (s', false) else (
      record s' { kv = put record { key = key; value = mark; expire_at = some (now + ttl) } s'.kv },
      true,
    )

unfoldable pub mem_exists : ℕ → ℕ → MemStore → MemStore × Bool
unfolding cleanup_mem
mem_exists key now s =
    let s' = cleanup_mem now s in (s', not (count_where (has_key key) s'.kv == 0))

-- A lifetime of zero is none.
unfoldable pub expiry : Option ℕ → ℕ → Option ℕ
expiry none now = none
expiry (some ttl) now = if ttl == 0 then none else some (now + ttl)

unfoldable pub mem_set : ℕ → ℕ → Option ℕ → ℕ → MemStore → MemStore
unfolding expiry put
mem_set key value ttl now s = record s {
  kv = put record { key = key; value = value; expire_at = expiry ttl now } s.kv;
}

unfoldable pub mem_get : ℕ → ℕ → MemStore → MemStore × Option ℕ
unfolding cleanup_mem
mem_get key now s =
    let s' = cleanup_mem now s in
    (s', elim (first_where (has_key key) s'.kv) [ none ↦ none | some e ↦ some e.value ])

unfoldable pub mem_delete : ℕ → MemStore → MemStore
mem_delete key s = record s { kv = select_where (λ e. not (has_key key e)) s.kv }

-- A failure of Redis is passed over, in production too.
unfoldable pub delete_key : Reply Unit → ℕ → MemStore → MemStore
unfolding mem_delete
delete_key no_client key s = mem_delete key s
delete_key (answered done) key s = s
delete_key failing key s = mem_delete key s

abbrev pub no_switch : ℕ → ℕ → Bool
no_switch key k = not (k == key)

-- The set of the switches that are on.
unfoldable pub switch_on : ℕ → MemStore → MemStore
switch_on key s = record s { kill_switches = key ∷ select_where (no_switch key) s.kill_switches }

unfoldable pub switch_off : ℕ → MemStore → MemStore
switch_off key s = record s { kill_switches = select_where (no_switch key) s.kill_switches }

module _ (production : Bool) where
  -- Redis' answer, or the answer of the memory where there is no Redis, or where it failed and this
  -- is not production.
  unfoldable pub or_memory : {A : Type 0} → Reply A → MemStore → MemStore × A → MemStore × Outcome A
  or_memory no_client s (s', a) = (s', returned a)
  or_memory (answered b) s (s', a) = (s, returned b)
  or_memory failing s (s', a) = if production then (s, raised) else (s', returned a)

  unfoldable pub set_nx_ex : Reply Bool → ℕ → ℕ → ℕ → MemStore → MemStore × Outcome Bool
  unfolding or_memory mem_set_nx
  set_nx_ex reply key ttl now s = or_memory reply s (mem_set_nx key ttl now s)

  unfoldable pub exists : Reply Bool → ℕ → ℕ → MemStore → MemStore × Outcome Bool
  unfolding or_memory mem_exists
  exists reply key now s = or_memory reply s (mem_exists key now s)

  unfoldable pub set_key : Reply Unit → ℕ → ℕ → Option ℕ → ℕ → MemStore → MemStore × Outcome Unit
  unfolding or_memory mem_set
  set_key reply key value ttl now s = or_memory reply s (mem_set key value ttl now s, tt)

  unfoldable pub get_key : Reply (Option ℕ) → ℕ → ℕ → MemStore → MemStore × Outcome (Option ℕ)
  unfolding or_memory mem_get
  get_key reply key now s = or_memory reply s (mem_get key now s)

  unfoldable pub after_set : ℕ → MemStore × Outcome Unit → MemStore × Outcome Unit
  unfolding switch_on
  after_set key (s, returned done) = (switch_on key s, returned done)
  after_set key (s, raised) = (s, raised)

  unfoldable pub set_kill_switch : Reply Unit → ℕ → Bool → ℕ → MemStore → MemStore × Outcome Unit
  unfolding after_set set_key delete_key switch_off
  set_kill_switch reply key true now s = after_set key (set_key reply key mark none now s)
  set_kill_switch reply key false now s = (switch_off key (delete_key reply key s), returned tt)

  unfoldable pub is_kill_switch_active : Reply Bool → ℕ → MemStore → Outcome Bool
  is_kill_switch_active no_client key s =
      returned (not (count_where (λ k. k == key) s.kill_switches == 0))
  is_kill_switch_active (answered b) key s = returned b
  is_kill_switch_active failing key s =
      if production
      then raised
      else returned (not (count_where (λ k. k == key) s.kill_switches == 0))
