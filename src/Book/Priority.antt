-- ===== src/Book/Priority.antt =====
-- The order of the levels under the operations of the book (backend/services/order_book.py).
use quantumsentinel_web.Prelude.{
  ℕ, ◌<◌, ◌≡◌, refl, Bool, not, Option, none, some, List, [], ◌∷◌, arith, All, if_both,
  All-update_where, select_where, update_where,
}
use quantumsentinel_web.Book.{TradeSide, buy, sell, LevelQueue, refresh_queue_positions}
use quantumsentinel_web.Book.Levels.{
  OrderBook, side_of, with_side, at_ticks, find_level, create_level, set_level, has_orders,
  prune_level, prune, kept_orders, forget,
}
use quantumsentinel_web.Book.Match.Prices.{OnGrid}

abbrev pub Above : ℕ → List LevelQueue → Type 0
Above ticks levels = All (λ level. ticks < level.ticks) levels

-- The ticks ascend, so that no two levels have the same, and every price is that of its ticks.
abbrev pub Ascends : ℕ → List LevelQueue → Type 0
Ascends tick [] = Unit
Ascends tick (level ∷ levels) = Above level.ticks levels × (OnGrid tick level × Ascends tick levels)

Above-create :
    (n : ℕ) (new : LevelQueue) (levels : List LevelQueue)
    → n < new.ticks
    → Above n levels
    → Above n (create_level new levels)
unfolding create_level
Above-create n new [] h a = (h, tt)
Above-create n new (level ∷ levels) h a = ground (arith, Above-create n new levels h a.1)

Above-mono : (m n : ℕ) (levels : List LevelQueue) → m < n → Above n levels → Above m levels
Above-mono m n [] h a = tt
Above-mono m n (level ∷ levels) h a = (omega arith, Above-mono m n levels h a.1)

pub Ascends-create :
    (tick : ℕ) (new : LevelQueue) (levels : List LevelQueue)
    → OnGrid tick new
    → Ascends tick levels
    → Ascends tick (create_level new levels)
unfolding create_level
Ascends-create tick new [] g s = (tt, (g, tt))
Ascends-create tick new (level ∷ levels) g s = ground (
  arith,
  Ascends-create tick new levels g s.1.1,
  Above-mono new.ticks level.ticks levels,
  Above-create level.ticks new levels,
)

Above-update :
    (n : ℕ) (p : LevelQueue → Bool) (f : LevelQueue → LevelQueue) (levels : List LevelQueue)
    → ((level : LevelQueue) → (f level).ticks ≡ level.ticks)
    → Above n levels
    → Above n (update_where p f levels)
Above-update n p f levels same a =
    All-update_where (λ (level : LevelQueue). n < level.ticks) p f (λ level e h. rw (same level) h)
      levels a

-- An update that keeps the ticks and the prices keeps the order.
pub Ascends-update :
    (tick : ℕ) (p : LevelQueue → Bool) (f : LevelQueue → LevelQueue) (levels : List LevelQueue)
    → ((level : LevelQueue) → ((f level).ticks ≡ level.ticks) × ((f level).price ≡ level.price))
    → Ascends tick levels
    → Ascends tick (update_where p f levels)
unfolding update_where
Ascends-update tick p f [] same s = tt
Ascends-update tick p f (level ∷ levels) same s = ground (
  arith,
  same level,
  Above-update level.ticks p f levels (λ l. (same l).0) s.0,
  Ascends-update tick p f levels same s.1.1,
)

Above-select :
    (n : ℕ) (p : LevelQueue → Bool) (levels : List LevelQueue)
    → Above n levels
    → Above n (select_where p levels)
unfolding select_where
Above-select n p [] a = tt
Above-select n p (level ∷ levels) a = ground (arith, Above-select n p levels a.1)

Ascends-select :
    (tick : ℕ) (p : LevelQueue → Bool) (levels : List LevelQueue)
    → Ascends tick levels
    → Ascends tick (select_where p levels)
unfolding select_where
Ascends-select tick p [] s = tt
Ascends-select tick p (level ∷ levels) s =
    ground (arith, Above-select level.ticks p levels s.0, Ascends-select tick p levels s.1.1)

Ascends-set_level :
    (tick ticks : ℕ) (addresses : List ℕ) (levels : List LevelQueue)
    → Ascends tick levels
    → Ascends tick (set_level ticks addresses levels)
unfolding set_level
Ascends-set_level tick ticks addresses levels s =
    if_both (λ (ls : List LevelQueue). Ascends tick ls) (has_orders addresses)
      (λ e.
        Ascends-update tick (at_ticks ticks) (λ level. record level { orders = addresses }) levels
          (λ level. (refl, refl)) s)
      (λ e. Ascends-select tick (λ level. not (at_ticks ticks level)) levels s)

-- Both sides of the book.
abbrev pub IsSorted : OrderBook → Type 0
IsSorted b = Ascends b.tick_size b.bids × Ascends b.tick_size b.asks

pub side-Ascends :
    (side : TradeSide) (b : OrderBook) → IsSorted b → Ascends b.tick_size (side_of side b)
side-Ascends buy b s = s.0
side-Ascends sell b s = s.1

pub with_side-IsSorted :
    (side : TradeSide) (levels : List LevelQueue) (b : OrderBook)
    → Ascends b.tick_size levels
    → IsSorted b
    → IsSorted (with_side side levels b)
unfolding with_side
with_side-IsSorted buy levels b h s = (h, s.1)
with_side-IsSorted sell levels b h s = (s.0, h)

prune_level-IsSorted :
    (side : TradeSide) (b : OrderBook) (found : Option LevelQueue)
    → IsSorted b
    → IsSorted (prune_level side b found)
unfolding prune_level
prune_level-IsSorted side b none s = s
prune_level-IsSorted side b (some level) s =
    let kept = kept_orders b.orders level in
    with_side-IsSorted side (set_level level.ticks kept (side_of side b))
      (record b {
        index = forget b.orders level.orders b.index;
        orders = refresh_queue_positions 0 kept b.orders;
      })
      (Ascends-set_level b.tick_size level.ticks kept (side_of side b) (side-Ascends side b s)) s

pub prune-IsSorted :
    (side : TradeSide) (ticks : ℕ) (b : OrderBook) → IsSorted b → IsSorted (prune side ticks b)
unfolding prune
prune-IsSorted side ticks b s = prune_level-IsSorted side b (find_level ticks (side_of side b)) s
