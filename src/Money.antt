-- ===== src/Money.antt =====
-- Exact decimals and money, after the first part of backend/services/paper_broker.py. A `Decimal` is
-- `coeff / 10 ^ exp`; the prices and quantities of orders are positive, so it has no sign. Money is a
-- whole number of micro-dollars.
pub mod Rounding
pub mod Float
use quantumsentinel_web.Prelude.{
  ℕ, ◌+◌, ◌-◌, ◌*◌, ◌/◌, ◌%◌, ◌^◌, max, Bool, ltb, leb, ◌==◌, if◌then◌else◌, Option, none, some,
}

pub record Decimal : Type 0 where
  pub coeff : ℕ
  pub exp : ℕ

-- The coefficient of `d` written with `e` places, for an `e` that is at least `d.exp`.
unfoldable pub scale : Decimal → ℕ → ℕ
scale d e = d.coeff * 10 ^ (e - d.exp)

unfoldable pub lt : Decimal → Decimal → Bool
unfolding scale
lt a b = let e = max a.exp b.exp in ltb (scale a e) (scale b e)

unfoldable pub le : Decimal → Decimal → Bool
unfolding scale
le a b = let e = max a.exp b.exp in leb (scale a e) (scale b e)

unfoldable pub mul : Decimal → Decimal → Decimal
mul a b = record { coeff = a.coeff * b.coeff; exp = a.exp + b.exp }

unfoldable pub add : Decimal → Decimal → Decimal
unfolding scale
add a b = let e = max a.exp b.exp in record { coeff = scale a e + scale b e; exp = e }

-- `max(Decimal(0), a - b)`
unfoldable pub sub_clamped : Decimal → Decimal → Decimal
unfolding scale
sub_clamped a b = let e = max a.exp b.exp in record { coeff = scale a e - scale b e; exp = e }

abbrev pub decimal_zero : Decimal
decimal_zero = record { coeff = 0; exp = 0 }

unfoldable pub is_zero : Decimal → Bool
is_zero d = d.coeff == 0

-- `round(x, places)`: to the nearest, ties to even. Values with fewer places stay as they are.
unfoldable pub round_places : ℕ → Decimal → Decimal
round_places places d =
    let unit = 10 ^ (d.exp - places) in
    let q = d.coeff / unit in
    let rest = 2 * (d.coeff % unit) in
    if leb d.exp places then d else record {
      coeff = if ltb unit rest then q + 1 else if rest == unit then q + q % 2 else q;
      exp = places;
    }

abbrev pub micros_per_dollar : ℕ
micros_per_dollar = 1000000

-- `int((Decimal(str(amount)) * MICROS).to_integral_value(rounding=ROUND_HALF_UP))`
unfoldable pub to_micros : Decimal → ℕ
to_micros d = (2 * (d.coeff * micros_per_dollar) + 10 ^ d.exp) / (2 * 10 ^ d.exp)

unfoldable pub notional_micros : Decimal → Decimal → ℕ
notional_micros quantity price = to_micros (mul quantity price)

pub data Side : Type 0 where
  buy sell : Side

pub data OrderType : Type 0 where
  market limit stop stop_limit : OrderType

-- `reference`, by the type of the order
unfoldable pub reservation_reference :
    OrderType → Option Decimal → Option Decimal → Option Decimal → Option Decimal
reservation_reference limit limit_price stop_price market_price = limit_price
reservation_reference stop_limit limit_price stop_price market_price = limit_price
reservation_reference stop limit_price stop_price market_price = stop_price
reservation_reference market limit_price stop_price market_price = market_price

unfoldable pub notional_or_zero : Decimal → Option Decimal → ℕ
notional_or_zero quantity none = 0
notional_or_zero quantity (some reference) = notional_micros quantity reference

unfoldable pub reservation_micros :
    Side → Decimal → OrderType → Option Decimal → Option Decimal → Option Decimal → ℕ
unfolding reservation_reference notional_or_zero
reservation_micros sell quantity order_type limit_price stop_price market_price = 0
reservation_micros buy quantity order_type limit_price stop_price market_price =
    notional_or_zero quantity (reservation_reference order_type limit_price stop_price market_price)
