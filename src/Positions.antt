-- ===== src/Positions.antt =====
-- Holdings from filled trades: `held_quantity` of backend/services/paper_broker.py and the rebuild of
-- the positions table in backend/services/portfolio_service.py. The first adds decimals, the second
-- floats. The average cost and the realised profit of a position are left out; no decision of the
-- broker reads them.
pub mod Rebuilt
use quantumsentinel_web.Prelude.{
  ℕ, ◌*◌, ◌^◌, Bool, not, ◌&&◌, ◌==◌, if◌then◌else◌, Option, none, some, List, [], ◌∷◌, ◌++◌,
  select_where, order_by,
}
use quantumsentinel_web.Money.{
  Decimal, decimal_zero, add as plus, sub_clamped, round_places, Side, buy, sell,
}
use quantumsentinel_web.Money.Float.{Float, finite, float_zero, of_decimal, add, sub, min_float, lt}
use quantumsentinel_web.Ledger.{Trade, Position, Tables, is_filled}

-- Filled trades all have a fill time.
abbrev pub fill_time : Trade → ℕ
fill_time t = elim t.filled_at [ none ↦ 0 | some time ↦ time ]

-- One trade: a sell never takes the holding below zero.
unfoldable pub hold : Side → Decimal → Decimal → Decimal
hold buy quantity held = plus held quantity
hold sell quantity held = sub_clamped held quantity

unfoldable pub hold_all : List Trade → Decimal → Decimal
hold_all [] held = held
hold_all (t ∷ ts) held = hold_all ts (hold t.side t.quantity held)

abbrev pub fills_of : ℕ → Trade → Bool
fills_of user t = t.user_id == user && is_filled t.status

abbrev pub excluded : Option ℕ → Trade → Bool
excluded exclude t = elim exclude [ none ↦ Bool.false | some id ↦ t.id == id ]

unfoldable pub held_quantity : Tables → ℕ → ℕ → Option ℕ → Decimal
unfolding hold_all
held_quantity w user asset exclude =
    hold_all
      (order_by fill_time (
        select_where (λ t. (fills_of user t && t.asset == asset) && not (excluded exclude t))
          w.trades))
      decimal_zero

-- One trade in the book, whose quantities are floats.
unfoldable pub hold_float : Side → Decimal → Float → Float
unfolding of_decimal add sub min_float
hold_float buy quantity held = add held (of_decimal quantity)
hold_float sell quantity held = sub held (min_float (of_decimal quantity) held)

-- `book`: the quantity of each asset, in the order in which the assets first traded.
unfoldable pub book_trade : Trade → List (ℕ × Float) → List (ℕ × Float)
unfolding hold_float
book_trade t [] = (t.asset, hold_float t.side t.quantity float_zero) ∷ []
book_trade t ((asset, quantity) ∷ book) =
    if asset == t.asset
    then (asset, hold_float t.side t.quantity quantity) ∷ book
    else (asset, quantity) ∷ book_trade t book

unfoldable pub book_all : List Trade → List (ℕ × Float) → List (ℕ × Float)
unfolding book_trade
book_all [] book = book
book_all (t ∷ ts) book = book_all ts (book_trade t book)

-- `round(x, 6)` as the column stores it. A holding is finite and not negative.
unfoldable pub round_float : Float → Decimal
unfolding round_places
round_float (finite negative n) = round_places 6 record { coeff = n * 5 ^ 1074; exp = 1074 }
round_float _ = decimal_zero

-- The row of a holding: none where it is flat.
unfoldable pub position_rows : ℕ → ℕ → Float → List Position
unfolding lt round_float
position_rows user asset quantity =
    if lt float_zero quantity
    then record { user_id = user; asset = asset; quantity = round_float quantity } ∷ []
    else []

unfoldable pub positions_of : ℕ → List (ℕ × Float) → List Position
unfolding position_rows
positions_of user [] = []
positions_of user ((asset, quantity) ∷ book) =
    position_rows user asset quantity ++ positions_of user book

unfoldable pub user_book : ℕ → List Trade → List (ℕ × Float)
unfolding book_all
user_book user trades = book_all (order_by fill_time (select_where (fills_of user) trades)) []

unfoldable pub rebuild_positions : ℕ → Tables → Tables
unfolding user_book positions_of
rebuild_positions user w = record w {
  positions =
      select_where (λ p. not (p.user_id == user)) w.positions
      ++ positions_of user (user_book user w.trades);
}
