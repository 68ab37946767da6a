-- ===== src/Security/Risk/Gate.antt =====
-- What the kill switches refuse, and the two forms of the risk gate, of backend/services/order_security.py.
use quantumsentinel_web.Prelude.{
  ◌&&◌, ℕ, ◌≡◌, ◌≢◌, refl, Bool, true, false, not, if◌then◌else◌, Option, none, some, List, [], ◌∷◌,
  arith,
}
use quantumsentinel_web.Money.Float.{Float}
use quantumsentinel_web.Security.{accepted, refused}
use quantumsentinel_web.Security.Risk.{
  Scope, global, user, asset, unknown, Switch, same_switch, normalized, set_kill_switch,
  local_block, any_unknown, any_active, Exposure, assert_switches, then_limits, assert_risk_gate,
  read_states, async_limits, assert_risk_gate_async,
}

-- The scope and the identifier name the order of this user in this asset.
abbrev pub Covers : ℕ → ℕ → Scope → Option ℕ → Type 0
Covers user_id asset_id global identifier = identifier ≡ none
Covers user_id asset_id user identifier = identifier ≡ some user_id
Covers user_id asset_id asset identifier = identifier ≡ some asset_id
Covers user_id asset_id unknown identifier = identifier ≢ identifier

-- A later call of set_kill_switch; one with an unknown scope raises and changes nothing.
pub record Change : Type 0 where
  pub scope : Scope
  pub identifier : Option ℕ
  pub enabled : Bool

unfoldable pub change : (ℕ → ℕ) → Change → List Switch → List Switch
unfolding set_kill_switch
change upper c switches = elim (set_kill_switch upper c.scope c.identifier c.enabled switches) [
  | none ↦ switches
  | some after ↦ after
]

unfoldable pub change_all : (ℕ → ℕ) → List Change → List Switch → List Switch
unfolding change
change_all upper [] switches = switches
change_all upper (c ∷ changes) switches = change_all upper changes (change upper c switches)

-- The change does not clear the switch.
abbrev pub Spares : (ℕ → ℕ) → Switch → Change → Type 0
Spares upper s c =
    (not c.enabled
      && same_switch record { scope = c.scope; identifier = normalized upper c.scope c.identifier }
          s)
    ≡ false

-- What set_kill_switch adds to the set.
abbrev pub switch_of : (ℕ → ℕ) → Scope → Option ℕ → Switch
switch_of upper scope identifier = record {
  scope = scope;
  identifier = normalized upper scope identifier;
}

read_states-known :
    (states : List (Option Bool))
    → any_unknown states ≡ false
    → read_states states ≡ some (any_active states)
unfolding read_states any_unknown any_active
read_states-known [] h = refl
read_states-known (none ∷ states) h = cc
read_states-known (some true ∷ states) h = refl
read_states-known (some false ∷ states) h = read_states-known states h

-- The states of the switches are known, and Redis, where there is one, decides alone.
abbrev pub Known : Bool → Option (List (Option Bool)) → Type 0
Known blocked none = Unit
Known blocked (some states) = (any_unknown states ≡ false) × (blocked ≡ false)

async_decides :
    (fraction : Float) (production blocked active : Bool) (e : Exposure)
    → async_limits fraction e (some active)
      ≡ some (then_limits fraction e (if active then refused 423 else accepted tt))
unfolding async_limits then_limits
async_decides fraction production blocked true e = refl
async_decides fraction production blocked false e = refl

gates-agree :
    (upper : ℕ → ℕ) (fraction : Float) (production blocked : Bool) (user_id asset_id : ℕ)
    (switches : List Switch) (redis : Option (List (Option Bool))) (e : Exposure)
    → local_block upper user_id asset_id switches ≡ blocked
    → Known blocked redis
    → assert_risk_gate_async upper fraction user_id asset_id switches redis e
      ≡ some (then_limits fraction e (assert_switches production blocked redis))
unfolding assert_risk_gate_async assert_switches then_limits async_limits
gates-agree upper fraction production true user_id asset_id switches none e b k = rw b refl
gates-agree upper fraction production false user_id asset_id switches none e b k = rw b refl
gates-agree upper fraction production true user_id asset_id switches (some states) e b k =
    absurd (ground arith)
gates-agree upper fraction production false user_id asset_id switches (some states) e b k =
    rw (read_states-known states k.0, k.0)
      (async_decides fraction production false (any_active states) e)

-- The asynchronous gate decides as the synchronous one does, where there is no Redis, or where the
-- states of its switches can all be read and the switches of this process block nothing.
pub async_agrees :
    (upper : ℕ → ℕ) (fraction : Float) (production : Bool) (user_id asset_id : ℕ)
    (switches : List Switch) (redis : Option (List (Option Bool))) (e : Exposure)
    → Known (local_block upper user_id asset_id switches) redis
    → assert_risk_gate_async upper fraction user_id asset_id switches redis e
      ≡ some (assert_risk_gate upper fraction production user_id asset_id switches redis e)
unfolding assert_risk_gate
async_agrees upper fraction production user_id asset_id switches redis e k =
    gates-agree upper fraction production (local_block upper user_id asset_id switches) user_id
      asset_id switches redis e refl k
