-- ===== src/Book/Match/Prices.antt =====
-- The prices at which an aggressor is filled (backend/services/order_book.py: consume_liquidity).
use quantumsentinel_web.Prelude.{
  ℕ, ◌-◌, ◌*◌, ◌≤◌, ◌≡◌, refl, Bool, false, Option, none, some, List, [], ◌∷◌, All, All-append,
  arith, if_both,
}
use native.Mathlib.Nat.{mul-le-mul_left}
use quantumsentinel_web.Book.{
  TradeSide, buy, sell, Order, record_fill, Fill, Orders, order_at, update_at, LevelQueue,
}
use quantumsentinel_web.Book.Levels.{OrderBook, to_ticks, from_ticks, side_of, prune}
use quantumsentinel_web.Book.Match.{
  opposite, Swept, match_order, fill_then, consume_orders, stops, Execution, consume_levels,
  reverse_onto, walked, consume_liquidity, limit_of,
}

-- At this price or a better one for the side.
abbrev pub AsGood : TradeSide → ℕ → ℕ → Type 0
AsGood buy limit price = price ≤ limit
AsGood sell limit price = limit ≤ price

abbrev pub OnGrid : ℕ → LevelQueue → Type 0
OnGrid tick level = level.price ≡ from_ticks tick level.ticks

fill_then-price :
    (P : Fill → Type 0) (rest : Orders → ℕ → Swept) (price timestamp address : ℕ)
    (found : Option (Order × ℕ)) (orders : Orders) (remaining : ℕ)
    → ((left : Orders) (more : ℕ) → All P (rest left more).fills)
    → ((f : Fill) → f.fill_price ≡ price → P f)
    → All P (fill_then rest price timestamp address found orders remaining).fills
unfolding fill_then
fill_then-price P rest price timestamp address none orders remaining k m = k orders remaining
fill_then-price P rest price timestamp address (some (o, quantity)) orders remaining k m = (
  m _ refl,
  k (update_at address (record_fill price quantity timestamp) orders) (remaining - quantity),
)

consume_orders-price :
    (P : Fill → Type 0) (skip_paper : Bool) (price timestamp : ℕ) (addresses : List ℕ)
    (orders : Orders) (remaining : ℕ)
    → ((f : Fill) → f.fill_price ≡ price → P f)
    → All P (consume_orders skip_paper price timestamp addresses orders remaining).fills
unfolding consume_orders
consume_orders-price P skip_paper price timestamp [] orders remaining m = tt
consume_orders-price P skip_paper price timestamp (a ∷ addresses) orders remaining m =
    fill_then-price P (λ left more. consume_orders skip_paper price timestamp addresses left more)
      price timestamp a (match_order skip_paper remaining (order_at orders a)) orders remaining
      (λ left more. consume_orders-price P skip_paper price timestamp addresses left more m) m

pub times : (a b c : ℕ) → a ≤ b → a * c ≤ b * c
times a b c h = let left = mul-le-mul_left {m = a} {n = b} c h in omega arith

not_stopped :
    (tick limit remaining : ℕ) (side : TradeSide) (level : LevelQueue)
    → OnGrid tick level
    → stops side (some limit) remaining level ≡ false
    → AsGood side (from_ticks tick limit) level.price
unfolding stops
not_stopped tick limit remaining buy level g h = rw g (times level.ticks limit tick (ground arith))
not_stopped tick limit remaining sell level g h = rw g (times limit level.ticks tick (ground arith))

consume_levels-price :
    (tick limit : ℕ) (skip_paper : Bool) (side : TradeSide) (timestamp : ℕ)
    (levels : List LevelQueue) (b : OrderBook) (remaining : ℕ)
    → All (OnGrid tick) levels
    → All
        (λ f. AsGood side (from_ticks tick limit) f.fill_price)
        (consume_levels skip_paper side (some limit) timestamp levels b remaining).fills
unfolding consume_levels
consume_levels-price tick limit skip_paper side timestamp [] b remaining g = tt
consume_levels-price tick limit skip_paper side timestamp (level ∷ levels) b remaining g =
    let swept = consume_orders skip_paper level.price timestamp level.orders b.orders remaining in
    let b' = prune (opposite side) level.ticks (record b { orders = swept.orders }) in
    let rest = consume_levels skip_paper side (some limit) timestamp levels b' swept.remaining in
    if_both (λ (e : Execution). All (λ f. AsGood side (from_ticks tick limit) f.fill_price) e.fills)
      (stops side (some limit) remaining level) (λ h. tt)
      (λ h.
        All-append (λ f. AsGood side (from_ticks tick limit) f.fill_price) swept.fills rest.fills
          (consume_orders-price (λ f. AsGood side (from_ticks tick limit) f.fill_price) skip_paper
            level.price timestamp level.orders b.orders remaining
            (λ f e. rw e (not_stopped tick limit remaining side level g.0 h)))
          (consume_levels-price tick limit skip_paper side timestamp levels b' swept.remaining g.1))

reverse_onto-All :
    (P : LevelQueue → Type 0) (levels done : List LevelQueue)
    → All P levels
    → All P done
    → All P (reverse_onto levels done)
unfolding reverse_onto
reverse_onto-All P [] done l d = d
reverse_onto-All P (level ∷ levels) done l d = reverse_onto-All P levels (level ∷ done) l.1 (l.0, d)

pub walked-All :
    (P : LevelQueue → Type 0) (side : TradeSide) (levels : List LevelQueue)
    → All P levels
    → All P (walked side levels)
unfolding walked
walked-All P buy levels h = h
walked-All P sell levels h = reverse_onto-All P levels [] h tt

-- An aggressor is never filled at a price worse than its limit on the grid, the limit rounded
-- to the nearest tick, where the levels that it meets have the prices of their ticks.
pub never_through_limit :
    (b : OrderBook) (side : TradeSide) (quantity timestamp limit_price : ℕ) (skip_paper : Bool)
    → All (OnGrid b.tick_size) (side_of (opposite side) b)
    → All
        (λ f. AsGood side (from_ticks b.tick_size (to_ticks b.tick_size limit_price)) f.fill_price)
        (consume_liquidity b side quantity timestamp (some limit_price) skip_paper).1
unfolding consume_liquidity limit_of
never_through_limit b side quantity timestamp limit_price skip_paper g =
    consume_levels-price b.tick_size (to_ticks b.tick_size limit_price) skip_paper side timestamp
      (walked side (side_of (opposite side) b)) b quantity
      (walked-All (OnGrid b.tick_size) side (side_of (opposite side) b) g)
