-- ===== src/Money/Rounding.antt =====
-- Rounding of `to_micros` (backend/services/paper_broker.py).
use quantumsentinel_web.Prelude.{ℕ, zero, suc, ◌+◌, ◌*◌, ◌/◌, ◌^◌, ◌≤◌, ◌<◌, arith}
use native.Mathlib.Nat.{pow-suc, div-add-mod, mod-lt}
use quantumsentinel_web.Money.{Decimal, to_micros, micros_per_dollar}

pub ten_pow_pos : (e : ℕ) → 0 < 10 ^ e
ten_pow_pos zero = omega arith
ten_pow_pos (suc e) = rw pow-suc (omega (arith, ten_pow_pos e))

div_half_up :
    (n p : ℕ)
    → 0 < p
    → let q = (2 * n + p) / (2 * p) in (2 * n < 2 * (q * p) + p) × (2 * (q * p) ≤ 2 * n + p)
div_half_up n p h =
    omega (arith, div-add-mod (2 * n + p) (2 * p), mod-lt (2 * n + p) {m = 2 * p} (omega arith))

-- The micros of an amount are within half a micro-dollar of it, and a tie goes up.
pub to_micros_near :
    (d : Decimal)
    → (2 * (d.coeff * micros_per_dollar) < 2 * (to_micros d * 10 ^ d.exp) + 10 ^ d.exp)
      × (2 * (to_micros d * 10 ^ d.exp) ≤ 2 * (d.coeff * micros_per_dollar) + 10 ^ d.exp)
unfolding to_micros
to_micros_near d = div_half_up (d.coeff * micros_per_dollar) (10 ^ d.exp) (ten_pow_pos d.exp)
