-- ===== src/Exchange/Position.antt =====
-- A position of the paper exchange (backend/services/paper_exchange.py: PaperPosition.apply_fill).
use quantumsentinel_web.Prelude.{
  ℕ, ◌+◌, ◌-◌, ◌*◌, ◌≡◌, refl, min, arith, Bool, true, ◌&&◌, ◌||◌, ltb, ◌==◌, if◌then◌else◌,
  if_both,
}
use quantumsentinel_web.Prelude.Int.{ℤ, pos, negsuc, ◌+ℤ◌, ◌-ℤ◌, ◌*ℤ◌, pos_part, neg_part, ltb_ℤ}
use quantumsentinel_web.Book.{TradeSide, buy, sell, Average}

-- numerator / denominator
pub record Fraction : Type 0 where
  pub numerator : ℤ
  pub denominator : ℕ

abbrev pub plus : Fraction → Fraction → Fraction
plus a b = record {
  numerator = a.numerator *ℤ pos b.denominator +ℤ b.numerator *ℤ pos a.denominator;
  denominator = a.denominator * b.denominator;
}

pub record PaperPosition : Type 0 where
  pub quantity : ℤ
  pub avg_entry_price : Average
  pub realized_pnl : Fraction

abbrev pub signed : TradeSide → ℕ → ℤ
signed buy quantity = pos quantity
signed sell quantity = pos 0 -ℤ pos quantity

abbrev pub magnitude : ℤ → ℕ
magnitude z = pos_part z + neg_part z

abbrev pub negated : ℤ → ℤ
negated z = pos 0 -ℤ z

-- The fill is against the position.
abbrev pub against : ℤ → ℤ → Bool
against quantity fill =
    (ltb_ℤ (pos 0) quantity && ltb_ℤ fill (pos 0)) || (ltb_ℤ quantity (pos 0) && ltb_ℤ (pos 0) fill)

-- What closing `closed` of the position earns.
abbrev pub earned : PaperPosition → ℕ → ℕ → Fraction
earned p price closed =
    let avg = p.avg_entry_price in
    let per_unit = pos (price * avg.quantity) -ℤ pos avg.total in
    record {
      numerator = (if ltb_ℤ p.quantity (pos 0) then negated per_unit else per_unit) *ℤ pos closed;
      denominator = avg.quantity;
    }

abbrev pub no_average : Average
no_average = record { total = 0; quantity = 1 }

abbrev pub turned : ℤ → ℕ → ℤ
turned fill remaining = if ltb_ℤ (pos 0) fill then pos remaining else negated (pos remaining)

abbrev pub grown_average : PaperPosition → ℕ → ℕ → ℤ → Average
grown_average p price quantity after =
    let avg = p.avg_entry_price in
    if magnitude after == 0 then avg else record {
      total = magnitude p.quantity * avg.total + quantity * price * avg.quantity;
      quantity = avg.quantity * magnitude after;
    }

unfoldable pub apply_fill : ℕ → ℕ → TradeSide → PaperPosition → PaperPosition
apply_fill price quantity side p =
    let fill = signed side quantity in
    let closed = min (magnitude fill) (magnitude p.quantity) in
    let realized = plus p.realized_pnl (earned p price closed) in
    let remaining = magnitude fill - closed in
    let after = p.quantity +ℤ fill in
    if against p.quantity fill
    then (if ltb 0 remaining
        then record {
          quantity = turned fill remaining;
          avg_entry_price = record { total = price; quantity = 1 };
          realized_pnl = realized;
        }
        else record {
          quantity = after;
          avg_entry_price = if magnitude after == 0 then no_average else p.avg_entry_price;
          realized_pnl = realized;
        })
    else record {
      quantity = after;
      avg_entry_price = grown_average p price quantity after;
      realized_pnl = p.realized_pnl;
    }

turned_exact :
    (q f : ℤ)
    → against q f ≡ true
    → ltb 0 (magnitude f - min (magnitude f) (magnitude q)) ≡ true
    → turned f (magnitude f - min (magnitude f) (magnitude q)) ≡ q +ℤ f
unfolding ◌+ℤ◌ ◌-ℤ◌
turned_exact (pos m) (pos n) a l = ground arith
turned_exact (pos m) (negsuc n) a l = ground arith
turned_exact (negsuc m) (pos n) a l = ground arith
turned_exact (negsuc m) (negsuc n) a l = ground arith

-- In every case a fill changes the position by exactly its signed quantity.
pub apply_fill-quantity :
    (price quantity : ℕ) (side : TradeSide) (p : PaperPosition)
    → (apply_fill price quantity side p).quantity ≡ p.quantity +ℤ signed side quantity
unfolding apply_fill
apply_fill-quantity price quantity side p =
    let fill = signed side quantity in
    let remaining = magnitude fill - min (magnitude fill) (magnitude p.quantity) in
    if_both (λ (r : PaperPosition). r.quantity ≡ p.quantity +ℤ fill) (against p.quantity fill)
      (λ a.
        if_both (λ (r : PaperPosition). r.quantity ≡ p.quantity +ℤ fill) (ltb 0 remaining)
          (λ l. turned_exact p.quantity fill a l) (λ l. refl))
      (λ a. refl)
