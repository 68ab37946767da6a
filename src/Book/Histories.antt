-- ===== src/Book/Histories.antt =====
-- Histories of the order book: orders rest, are cancelled, aggressors execute, the feed sends events
-- (backend/services/order_book.py).
use quantumsentinel_web.Prelude.{ℕ, Bool, Option, List, [], ◌∷◌}
use quantumsentinel_web.Book.{TradeSide, Order}
use quantumsentinel_web.Book.Levels.{OrderBook, side_of, add_order, cancel_order, address_of}
use quantumsentinel_web.Book.Match.{opposite, consume_levels, walked, limit_of, consume_liquidity}
use quantumsentinel_web.Book.Priority.{IsSorted}
use quantumsentinel_web.Book.Event.{BookEvent}
use quantumsentinel_web.Book.Feed.{apply_market_event}
use quantumsentinel_web.Book.Operations.{
  cancel_address-IsSorted, consume_levels-IsSorted, traded-IsSorted,
}
use quantumsentinel_web.Book.FeedEvents.{add_order-IsSorted, apply_as-IsSorted}

pub data BookOp : Type 0 where
  rests : Order → ℕ → BookOp
  cancels : ℕ → BookOp
  takes : TradeSide → ℕ → ℕ → Option ℕ → Bool → BookOp
  feeds : (ℕ → ℕ → ℕ → ℕ) → BookEvent → ℕ → BookOp

unfoldable pub apply : OrderBook → BookOp → OrderBook
apply b (rests o timestamp) = add_order b o timestamp
apply b (cancels order_id) = (cancel_order b order_id).0
apply b (takes side quantity timestamp limit_price skip_paper) =
    (consume_liquidity b side quantity timestamp limit_price skip_paper).0
apply b (feeds portion event drawn) = (apply_market_event portion b event drawn).0

unfoldable pub apply_all : OrderBook → List BookOp → OrderBook
unfolding apply
apply_all b [] = b
apply_all b (op ∷ ops) = apply_all (apply b op) ops

apply-IsSorted : (b : OrderBook) (op : BookOp) → IsSorted b → IsSorted (apply b op)
unfolding apply cancel_order consume_liquidity apply_market_event
apply-IsSorted b (rests o timestamp) s = add_order-IsSorted b o timestamp s
apply-IsSorted b (cancels order_id) s =
    cancel_address-IsSorted b order_id (address_of b.index order_id) s
apply-IsSorted b (takes side quantity timestamp limit_price skip_paper) s =
    let levels = walked side (side_of (opposite side) b) in
    let e = consume_levels skip_paper side (limit_of b limit_price) timestamp levels b quantity in
    traded-IsSorted e.fills e.book (
      consume_levels-IsSorted skip_paper side (limit_of b limit_price) timestamp levels b quantity
        s)
apply-IsSorted b (feeds portion event drawn) s =
    apply_as-IsSorted portion event.event_type (record b { last_event_time = event.timestamp })
      event drawn s

-- From a book with sorted levels, every history of resting orders, cancellations, executions and
-- events of the feed leads to one: the levels of each side are in the order of their ticks, each once, and at the
-- price of its ticks.
pub apply_all-IsSorted :
    (b : OrderBook) (ops : List BookOp) → IsSorted b → IsSorted (apply_all b ops)
unfolding apply_all
apply_all-IsSorted b [] s = s
apply_all-IsSorted b (op ∷ ops) s = apply_all-IsSorted (apply b op) ops (apply-IsSorted b op s)
