-- ===== src/Exposure.antt =====
-- What a user's open orders commit (backend/services/paper_broker.py: open_order_exposure).
use quantumsentinel_web.Prelude.{
  ℕ, ◌+◌, ◌≡◌, Bool, ◌&&◌, ◌==◌, if◌then◌else◌, List, [], ◌∷◌, arith, select_where, sum_by,
}
use quantumsentinel_web.Money.{Decimal, Side, buy, sell, add, decimal_zero}
use quantumsentinel_web.Ledger.{Trade, is_open, trade_reservation_micros}

-- `d[key] = d.get(key, 0) + amount`
unfoldable pub add_micros : ℕ → ℕ → List (ℕ × ℕ) → List (ℕ × ℕ)
add_micros key amount [] = (key, amount) ∷ []
add_micros key amount ((k, n) ∷ rest) =
    if k == key then (k, n + amount) ∷ rest else (k, n) ∷ add_micros key amount rest

unfoldable pub add_quantity : ℕ → Decimal → List (ℕ × Decimal) → List (ℕ × Decimal)
add_quantity key amount [] = (key, add decimal_zero amount) ∷ []
add_quantity key amount ((k, n) ∷ rest) =
    if k == key then (k, add n amount) ∷ rest else (k, n) ∷ add_quantity key amount rest

-- `d.get(key, 0)`
unfoldable pub micros_of : ℕ → List (ℕ × ℕ) → ℕ
micros_of key [] = 0
micros_of key ((k, n) ∷ rest) = if k == key then n else micros_of key rest

unfoldable pub expose :
    Side → Trade → List (ℕ × ℕ) × List (ℕ × Decimal) → List (ℕ × ℕ) × List (ℕ × Decimal)
unfolding add_micros add_quantity
expose buy t (reserved, pending) =
    (add_micros t.asset (trade_reservation_micros t) reserved, pending)
expose sell t (reserved, pending) = (reserved, add_quantity t.asset t.quantity pending)

unfoldable pub expose_all :
    List Trade → List (ℕ × ℕ) × List (ℕ × Decimal) → List (ℕ × ℕ) × List (ℕ × Decimal)
unfolding expose
expose_all [] exposure = exposure
expose_all (t ∷ ts) exposure = expose_all ts (expose t.side t exposure)

abbrev pub open_order_of : ℕ → Trade → Bool
open_order_of user t = t.user_id == user && is_open t.status

unfoldable pub open_order_exposure : List Trade → ℕ → List (ℕ × ℕ) × List (ℕ × Decimal)
unfolding expose_all
open_order_exposure trades user = expose_all (select_where (open_order_of user) trades) ([], [])

-- What one order commits to an asset.
abbrev pub commits : Side → ℕ → Trade → ℕ
commits buy asset t = if t.asset == asset then trade_reservation_micros t else 0
commits sell asset t = 0

abbrev pub committed_to : ℕ → Trade → ℕ
committed_to asset t = commits t.side asset t

micros_of-add_micros :
    (asset key amount : ℕ) (d : List (ℕ × ℕ))
    → micros_of asset (add_micros key amount d)
      ≡ micros_of asset d + (if key == asset then amount else 0)
unfolding micros_of add_micros
micros_of-add_micros asset key amount [] = ground arith
micros_of-add_micros asset key amount ((k, n) ∷ rest) =
    ground (arith, micros_of-add_micros asset key amount rest)

expose-commits :
    (asset : ℕ) (side : Side) (t : Trade) (x : List (ℕ × ℕ) × List (ℕ × Decimal))
    → micros_of asset (expose side t x).0 ≡ micros_of asset x.0 + commits side asset t
unfolding expose
expose-commits asset buy t (reserved, pending) =
    micros_of-add_micros asset t.asset (trade_reservation_micros t) reserved
expose-commits asset sell t (reserved, pending) = omega arith

expose_all-committed :
    (asset : ℕ) (ts : List Trade) (x : List (ℕ × ℕ) × List (ℕ × Decimal))
    → micros_of asset (expose_all ts x).0 ≡ micros_of asset x.0 + sum_by (committed_to asset) ts
unfolding expose_all sum_by
expose_all-committed asset [] x = omega arith
expose_all-committed asset (t ∷ ts) x =
    let head = expose-commits asset t.side t x in
    let rest = expose_all-committed asset ts (expose t.side t x) in omega arith

-- The cash that the read model reports as reserved for an asset is the sum of the reservations of the
-- user's open buy orders in it.
pub exposure_exact :
    (trades : List Trade) (user asset : ℕ)
    → micros_of asset (open_order_exposure trades user).0
      ≡ sum_by (committed_to asset) (select_where (open_order_of user) trades)
unfolding open_order_exposure micros_of
exposure_exact trades user asset =
    let total = expose_all-committed asset (select_where (open_order_of user) trades) ([], []) in
    omega arith
