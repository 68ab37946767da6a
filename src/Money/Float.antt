-- ===== src/Money/Float.antt =====
-- Python's floats, which are IEEE doubles: what portfolio_service.py, paper_broker.py and order_security.py
-- (in backend/services) compute with them. A finite one is a sign and a whole number of 2 ^ -1074, the
-- smallest positive double; a result is the exact one rounded to 53 significant bits, ties to even.
use quantumsentinel_web.Prelude.{
  ℕ, zero, suc, ◌+◌, ◌-◌, ◌*◌, ◌/◌, ◌%◌, ◌^◌, ◌<◌, arith, Bool, true, false, not, ◌&&◌, ltb, leb,
  ◌==◌, if◌then◌else◌, ◌≡◌, refl, ltb→lt, subst,
}
use native.Mathlib.Nat.{pow-suc}
use quantumsentinel_web.Money.{Decimal}

pub data Float : Type 0 where
  finite : Bool → ℕ → Float
  infinite : Bool → Float
  nan : Float

abbrev pub float_zero : Float
float_zero = finite false 0

-- `num / den`, to the nearest whole number, ties to even.
unfoldable half_even : ℕ → ℕ → ℕ
half_even num den =
    let q = num / den in
    let rest = 2 * (num % den) in
    if ltb den rest then q + 1 else if rest == den then q + q % 2 else q

-- The least `unit * 2 ^ k` of which `q` is fewer than 2 ^ 53.
unfoldable unit_from : ℕ → ℕ → ℕ → ℕ
unit_from zero unit q = unit
unit_from (suc fuel) unit q = elim (ltb q (unit * 2 ^ 53)) [
  | true ↦ unit
  | false ↦ unit_from fuel (2 * unit) q
]

-- 2 ^ 1024 and all above it is infinite.
abbrev overflow : ℕ
overflow = 2 ^ 2098

unfoldable finite_or_infinite : Bool → ℕ → Float
finite_or_infinite negative n = if leb overflow n then infinite negative else finite negative n

-- The double next to `num / den` of the smallest ones.
unfoldable pub rounded : Bool → ℕ → ℕ → Float
unfolding half_even unit_from finite_or_infinite
rounded negative num den =
    let unit = unit_from 2045 1 (num / den) in
    finite_or_infinite negative (half_even num (den * unit) * unit)

-- `float(d)`
unfoldable pub of_decimal : Decimal → Float
unfolding rounded
of_decimal d = rounded false (d.coeff * 2 ^ 1074) (10 ^ d.exp)

-- The column has 63 bits, so that the division of decimals is exact.
unfoldable pub from_micros : ℕ → Float
unfolding of_decimal
from_micros micros = of_decimal record { coeff = micros; exp = 6 }

unfoldable pub same_sign : Bool → Bool → Bool
same_sign true s = s
same_sign false s = not s

unfoldable pub negate : Float → Float
negate (finite s n) = finite (not s) n
negate (infinite s) = infinite (not s)
negate nan = nan

unfoldable pub add : Float → Float → Float
unfolding rounded same_sign
add (finite s a) (finite t b) =
    if same_sign s t
    then rounded s (a + b) 1
    else if leb b a
    then rounded s (a - b) 1
    else rounded t (b - a) 1
add (finite s a) (infinite t) = infinite t
add (finite s a) nan = nan
add (infinite s) (finite t b) = infinite s
add (infinite s) (infinite t) = if same_sign s t then infinite s else nan
add (infinite s) nan = nan
add nan y = nan

unfoldable pub sub : Float → Float → Float
unfolding add negate
sub x y = add x (negate y)

unfoldable pub mul : Float → Float → Float
unfolding rounded same_sign
mul (finite s a) (finite t b) = rounded (not (same_sign s t)) (a * b) (2 ^ 1074)
mul (finite s a) (infinite t) = if a == 0 then nan else infinite (not (same_sign s t))
mul (finite s a) nan = nan
mul (infinite s) (finite t b) = if b == 0 then nan else infinite (not (same_sign s t))
mul (infinite s) (infinite t) = infinite (not (same_sign s t))
mul (infinite s) nan = nan
mul nan y = nan

unfoldable pub lt : Float → Float → Bool
lt (finite true a) (finite true b) = ltb b a
lt (finite true a) (finite false b) = not (a == 0 && b == 0)
lt (finite false a) (finite true b) = false
lt (finite false a) (finite false b) = ltb a b
lt (finite s a) (infinite t) = not t
lt (infinite s) (finite t b) = s
lt (infinite true) (infinite t) = not t
lt (infinite false) (infinite t) = false
lt x nan = false
lt nan y = false

-- `min(x, y)`
unfoldable pub min_float : Float → Float → Float
unfolding lt
min_float x y = if lt y x then y else x

doubled : (unit fuel q : ℕ) → q < unit * 2 ^ 53 * 2 ^ suc fuel → q < 2 * unit * 2 ^ 53 * 2 ^ fuel
doubled unit fuel q h =
    let eq : unit * 2 ^ 53 * (2 ^ fuel * 2) ≡ 2 * unit * 2 ^ 53 * 2 ^ fuel = omega arith in
    subst (λ n. q < n) eq (rw (pow-suc 2 fuel) at h)

-- The fuel is enough: what is below 2 ^ 1024 has fewer than 2 ^ 53 of its units.
unit_from-fits :
    (fuel unit q : ℕ) → q < unit * 2 ^ 53 * 2 ^ fuel → q < unit_from fuel unit q * 2 ^ 53
unfolding unit_from
unit_from-fits zero unit q h = omega (arith, h)
unit_from-fits (suc fuel) unit q h =
    step (ltb q (unit * 2 ^ 53)) refl (λ k. unit_from-fits fuel (2 * unit) q k)
  where
    step :
        (b : Bool)
        → ltb q (unit * 2 ^ 53) ≡ b
        → (q < 2 * unit * 2 ^ 53 * 2 ^ fuel → q < unit_from fuel (2 * unit) q * 2 ^ 53)
        → q < (elim b [ true ↦ unit | false ↦ unit_from fuel (2 * unit) q ]) * 2 ^ 53
    step true e next = ltb→lt q (unit * 2 ^ 53) e
    step false e next = next (doubled unit fuel q h)
