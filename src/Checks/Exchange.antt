-- ===== src/Checks/Exchange.antt =====
-- The simulated exchange: a book with a tick of 10, and asks of the feed and of ours.
use quantumsentinel_web.Prelude.{
  ℕ, ◌≤◌, ◌≡◌, ◌+◌, refl, inr, true, none, some, List, [], ◌∷◌, arith, All, update_where,
}
use quantumsentinel_web.Book.{
  TradeSide, buy, sell, limit, submitted, gtc, ioc, TimeInForce, Owner, feed, paper, Order,
}
use quantumsentinel_web.Book.Levels.{
  OrderBook, add_order, to_ticks, from_ticks, rest_at, create_level, find_level, with_side,
}
use quantumsentinel_web.Book.Match.{consume_liquidity, filled_total}
use quantumsentinel_web.Book.{refresh_queue_positions}
use quantumsentinel_web.Book.Priority.{IsSorted}
use quantumsentinel_web.Book.Histories.{
  BookOp, rests, takes, cancels, apply_all, apply_all-IsSorted,
}
use quantumsentinel_web.Book.Queues.{Ahead, refresh-Ahead}
use quantumsentinel_web.Book.Match.Prices.{AsGood, never_through_limit}
use quantumsentinel_web.Book.Match.Maker.{paper_states, no_self_trade}
use quantumsentinel_web.Engine.{MatchingEngine, take, submit_order, is_immediate}
use quantumsentinel_web.Engine.Immediate.{Ended, Immediate-ends, take_exact}

abbrev order : ℕ → TradeSide → Owner → TimeInForce → ℕ → ℕ → Order
order id side owner time_in_force quantity price = record {
  order_id = id;
  side = side;
  order_type = limit;
  quantity = quantity;
  limit_price = some price;
  stop_price = none;
  time_in_force = time_in_force;
  submitted_at = 1;
  expires_at = none;
  owner = owner;
  status = submitted;
  filled_quantity = 0;
  avg_fill_price = record { total = 0; quantity = 1 };
  queue_ahead = 0;
  queue_ahead_at_entry = 0;
  queue_ahead_peak = 0;
  entered_book_at = none;
  filled_at = none;
  active_at = none;
}

abbrev empty : OrderBook
empty = record {
  tick_size = 10;
  bids = [];
  asks = [];
  orders = [];
  index = [];
  last_trade_price = none;
  last_trade_size = none;
  last_event_time = 0;
}

abbrev book : OrderBook
book =
    add_order
      (add_order (add_order empty (order 1 sell feed gtc 500 1000) 1)
        (order 2 sell paper gtc 300 1000) 2)
      (order 3 sell feed gtc 400 1010) 3

never_through_limit_example :
    All
      (λ f. AsGood buy (from_ticks 10 (to_ticks 10 1000)) f.fill_price)
      (consume_liquidity book buy 700 5 (some 1000) true).1
unfolding add_order rest_at create_level find_level with_side to_ticks update_where
never_through_limit_example = never_through_limit book buy 700 5 1000 true (refl, (refl, tt))

no_self_trade_example :
    paper_states (consume_liquidity book buy 700 5 (some 1010) true).0.orders
    ≡ paper_states book.orders
no_self_trade_example = no_self_trade book buy 700 5 (some 1010)

abbrev engine : MatchingEngine
engine = record { book = book; event_log = []; pending_stops = [] }

Immediate-ends_example : Ended (submit_order engine (order 9 buy paper ioc 700 1000) 5).1.order
unfolding is_immediate
Immediate-ends_example =
    Immediate-ends engine (order 9 buy paper ioc 700 1000) 5 (inr (refl, refl)) (omega arith)

take_exact_example :
    let fills = (consume_liquidity book buy 700 5 (some 1000) true).1 in
    ((take book (order 9 buy paper ioc 700 1000) 5 (some 1000)).order.filled_quantity
      ≡ 0 + filled_total fills)
    × ((take book (order 9 buy paper ioc 700 1000) 5 (some 1000)).order.filled_quantity
        ≤ (take book (order 9 buy paper ioc 700 1000) 5 (some 1000)).order.quantity)
take_exact_example = take_exact book (order 9 buy paper ioc 700 1000) 5 (some 1000) (omega arith)

refresh-Ahead_example :
    Ahead 0 (refresh_queue_positions 0 (0 ∷ 1 ∷ 2 ∷ []) book.orders) (0 ∷ 1 ∷ 2 ∷ [])
refresh-Ahead_example =
    refresh-Ahead 0 (0 ∷ 1 ∷ 2 ∷ []) book.orders
      (((λ e. ground arith), ((λ e. ground arith), tt)), (((λ e. ground arith), tt), (tt, tt)))

abbrev book_history : List BookOp
book_history =
    rests (order 1 sell feed gtc 500 1000) 1
    ∷ rests (order 2 sell paper gtc 300 1010) 2
    ∷ takes buy 700 3 (some 1010) true
    ∷ cancels 2
    ∷ []

apply_all-IsSorted_example : IsSorted (apply_all empty book_history)
apply_all-IsSorted_example = apply_all-IsSorted empty book_history (tt, tt)
