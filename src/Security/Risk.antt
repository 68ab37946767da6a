-- ===== src/Security/Risk.antt =====
-- The risk gate and the kill switches (backend/services/order_security.py: assert_risk_gate_async to
-- set_kill_switch).
pub mod Gate
use quantumsentinel_web.Prelude.{
  ℕ, Bool, true, false, not, ◌&&◌, ◌||◌, ◌==◌, if◌then◌else◌, Option, none, some, List, [], ◌∷◌,
  map, select_where, count_where,
}
use quantumsentinel_web.Money.{Side, buy, sell}
use quantumsentinel_web.Money.Float.{Float, float_zero, mul, add, lt}
use quantumsentinel_web.Security.{Checked, accepted, refused}

-- The scope is text: one that is none of the three names is refused.
pub data Scope : Type 0 where
  global user asset unknown : Scope

-- An element of `_KILL_SWITCHES`.
pub record Switch : Type 0 where
  pub scope : Scope
  pub identifier : Option ℕ

unfoldable pub same_scope : Scope → Scope → Bool
same_scope global global = true
same_scope user user = true
same_scope asset asset = true
same_scope unknown unknown = true
same_scope _ _ = false

unfoldable pub same_identifier : Option ℕ → Option ℕ → Bool
same_identifier none none = true
same_identifier (some a) (some b) = a == b
same_identifier _ _ = false

unfoldable pub same_switch : Switch → Switch → Bool
unfolding same_scope same_identifier
same_switch a b = same_scope a.scope b.scope && same_identifier a.identifier b.identifier

unfoldable pub is_on : Switch → List Switch → Bool
unfolding same_switch
is_on s [] = false
is_on s (t ∷ switches) = same_switch t s || is_on s switches

-- `upper` is str.upper on the identifiers.
module _ (upper : ℕ → ℕ) where
  unfoldable pub normalized : Scope → Option ℕ → Option ℕ
  normalized asset (some a) = some (upper a)
  normalized _ identifier = identifier

  -- `add` and `discard` of the set.
  unfoldable pub set_switch : Switch → Bool → List Switch → List Switch
  unfolding same_switch
  set_switch s true switches = s ∷ select_where (λ t. not (same_switch t s)) switches
  set_switch s false switches = select_where (λ t. not (same_switch t s)) switches

  -- `none`: the ValueError of an unknown scope.
  unfoldable pub set_kill_switch : Scope → Option ℕ → Bool → List Switch → Option (List Switch)
  unfolding normalized set_switch
  set_kill_switch unknown identifier enabled switches = none
  set_kill_switch scope identifier enabled switches = some (
      set_switch record { scope = scope; identifier = normalized scope identifier } enabled
        switches)

  unfoldable pub local_block : ℕ → ℕ → List Switch → Bool
  unfolding is_on
  local_block user_id asset_id switches =
      is_on record { scope = global; identifier = none } switches
      || (is_on record { scope = user; identifier = some user_id } switches
          || is_on record { scope = asset; identifier = some (upper asset_id) } switches)

unfoldable pub any_unknown : List (Option Bool) → Bool
any_unknown [] = false
any_unknown (none ∷ states) = true
any_unknown (some b ∷ states) = any_unknown states

unfoldable pub any_active : List (Option Bool) → Bool
any_active [] = false
any_active (none ∷ states) = any_active states
any_active (some b ∷ states) = b || any_active states

-- The order and the account as the gate sees them, in floats; the first argument of what follows is
-- PAPER_MAX_POSITION_FRACTION, the part of the equity that one order may use.
pub record Exposure : Type 0 where
  pub side : Side
  pub quantity : Float
  pub price : Float
  pub held_quantity : Float
  pub account_equity : Float
  pub current_gross_exposure : Float

unfoldable pub assert_limits : Float → Exposure → Checked Unit
unfolding mul add lt
assert_limits fraction e =
    let notional = mul e.quantity e.price in
    if lt (mul e.account_equity fraction) notional
    then refused 400
    else if elim e.side [ buy ↦ false | sell ↦ lt e.held_quantity e.quantity ]
    then refused 400
    else if lt e.account_equity
        (add e.current_gross_exposure (elim e.side [ buy ↦ notional | sell ↦ float_zero ]))
    then refused 400
    else accepted tt

-- `redis` has the three states that Redis reported where there is a client; a state that could not
-- be read is `none`.
unfoldable pub assert_switches : Bool → Bool → Option (List (Option Bool)) → Checked Unit
unfolding any_unknown any_active
assert_switches production true redis = refused 423
assert_switches production false none = accepted tt
assert_switches production false (some states) =
    if any_unknown states && production
    then refused 503
    else if any_active states
    then refused 423
    else accepted tt

unfoldable pub then_limits : Float → Exposure → Checked Unit → Checked Unit
unfolding assert_limits
then_limits fraction e (refused code) = refused code
then_limits fraction e (accepted done) = assert_limits fraction e

unfoldable pub assert_risk_gate :
    (ℕ → ℕ)
    → Float
    → Bool
    → ℕ
    → ℕ
    → List Switch
    → Option (List (Option Bool))
    → Exposure
    → Checked Unit
unfolding local_block assert_switches then_limits
assert_risk_gate upper fraction production user_id asset_id switches redis e =
    then_limits fraction e
      (assert_switches production (local_block upper user_id asset_id switches) redis)

-- The asynchronous gate reads Redis' switches one after another, up to the first that is on; a
-- `none` is a read that raises RiskStateUnavailable.
unfoldable pub read_states : List (Option Bool) → Option Bool
read_states [] = some false
read_states (none ∷ states) = none
read_states (some true ∷ states) = some true
read_states (some false ∷ states) = read_states states

unfoldable pub async_limits : Float → Exposure → Option Bool → Option (Checked Unit)
unfolding assert_limits
async_limits fraction e none = none
async_limits fraction e (some true) = some (refused 423)
async_limits fraction e (some false) = some (assert_limits fraction e)

-- `none`: RiskStateUnavailable is raised. The memory decides only where there is no Redis.
unfoldable pub assert_risk_gate_async :
    (ℕ → ℕ)
    → Float
    → ℕ
    → ℕ
    → List Switch
    → Option (List (Option Bool))
    → Exposure
    → Option (Checked Unit)
unfolding read_states async_limits local_block
assert_risk_gate_async upper fraction user_id asset_id switches none e =
    async_limits fraction e (some (local_block upper user_id asset_id switches))
assert_risk_gate_async upper fraction user_id asset_id switches (some states) e =
    async_limits fraction e (read_states states)
