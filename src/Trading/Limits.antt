-- ===== src/Trading/Limits.antt =====
-- The prices at which limit orders trade (backend/services/trading_service.py).
use quantumsentinel_web.Prelude.{
  ℕ, ◌+◌, ◌*◌, ◌≤◌, ◌≡◌, true, Option, none, some, arith, if◌then◌else◌,
}
use quantumsentinel_web.Money.{Decimal, lt, le, scale, round_places, Side, buy, sell, limit}
use quantumsentinel_web.Trading.{
  filled_at, rests, round_quote, min_price, max_price, is_marketable, improved_price, limit_fill,
  simulate_fill, check_pending_limit_fill,
}

-- The price of a marketable order before it is rounded: the last price, which is no worse than the
-- limit.
improved_price-last :
    (side : Side) (last l : Decimal)
    → is_marketable side last l ≡ true
    → improved_price side last l ≡ last
unfolding is_marketable improved_price min_price max_price le lt scale
improved_price-last buy last l h = ground arith
improved_price-last sell last l h = ground arith

-- A resting limit order is filled by the sweeper exactly when, and at the price at which, the same
-- order would be filled on arrival at that last price.
pub pending-eq-arrival :
    (side : Side) (l last : Decimal) (s : Option Decimal)
    → check_pending_limit_fill side l last ≡ (simulate_fill side limit (some l) s last).filled_price
unfolding check_pending_limit_fill simulate_fill
pending-eq-arrival side l last s = ground (arith, improved_price-last side last l)

round_places_exact : (places : ℕ) (d : Decimal) → d.exp ≤ places → round_places places d ≡ d
unfolding round_places
round_places_exact places d h = ground arith

round_quote_exact : (p q : Decimal) → q.exp ≤ 2 → round_quote p q ≡ q
unfolding round_quote
round_quote_exact p q h =
    ground (arith, round_places_exact 2 q h, round_places_exact 6 q (omega arith))

-- At a last price in whole cents a limit order trades at that price when it is no worse than the
-- limit, and rests otherwise.
pub limit_fill_exact :
    (side : Side) (l last : Decimal) (s : Option Decimal)
    → last.exp ≤ 2
    → simulate_fill side limit (some l) s last
      ≡ (if is_marketable side last l then filled_at last else rests)
unfolding simulate_fill limit_fill
limit_fill_exact side l last s h =
    ground (arith, improved_price-last side last l, round_quote_exact last last h)

abbrev pub mills : ℕ → Decimal
mills n = record { coeff = n; exp = 3 }

abbrev pub cents : ℕ → Decimal
cents n = record { coeff = n; exp = 2 }

rounds_up :
    (n : ℕ) → 100 ≤ n → round_quote (mills (n * 10 + 6)) (mills (n * 10 + 6)) ≡ cents (n + 1)
unfolding round_quote round_places lt scale
rounds_up n h = ground arith

-- Rounding to whole cents breaks the limit: a buy limited to a price of at least a dollar that ends
-- in six tenths of a cent, at that last price, is filled four tenths of a cent above its limit.
pub buy_above_limit :
    (n : ℕ)
    → 100 ≤ n
    → let l = mills (n * 10 + 6) in
      (simulate_fill buy limit (some l) none l ≡ filled_at (cents (n + 1)))
      × (lt l (cents (n + 1)) ≡ true)
unfolding simulate_fill limit_fill is_marketable improved_price min_price lt le scale
buy_above_limit n h = ground (arith, rounds_up n h)
