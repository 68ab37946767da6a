-- ===== src/Checks/Simulation.antt =====
-- A simulation of the paper exchange with a latency of 5, and a print of the feed.
use quantumsentinel_web.Prelude.{
  ℕ, ◌≤◌, ◌≡◌, refl, false, none, some, List, [], ◌∷◌, All, sum_by, update_where,
}
use quantumsentinel_web.Prelude.Int.{pos, ◌+ℤ◌}
use quantumsentinel_web.Book.{TradeSide, buy, sell, limit, gtc}
use quantumsentinel_web.Book.Levels.{
  OrderBook, to_ticks, from_ticks, add_order, rest_at, create_level, find_level, with_side,
}
use quantumsentinel_web.Book.Match.{filled_total}
use quantumsentinel_web.Book.Match.Prices.{AsGood}
use quantumsentinel_web.Book.Event.{BookEvent, adding, printing}
use quantumsentinel_web.Book.Print.{apply_print}
use quantumsentinel_web.Book.Print.Bounds.{print_bounded}
use quantumsentinel_web.Book.Feed.{feed_order}
use quantumsentinel_web.Exchange.{PaperExchange}
use quantumsentinel_web.Exchange.Session.{Ticket, order_for, advance_to, is_due}
use quantumsentinel_web.Exchange.Session.Balance.{
  Action, submits, cancels, advances, feeds, act_all, Balanced, act_all-Balanced,
}
use quantumsentinel_web.Exchange.Session.Release.{advance_to-releases}

abbrev empty_book : OrderBook
empty_book = record {
  tick_size = 10;
  bids = [];
  asks = [];
  orders = [];
  index = [];
  last_trade_price = none;
  last_trade_size = none;
  last_event_time = 0;
}

abbrev event : ℕ → TradeSide → ℕ → ℕ → BookEvent
event now side price size = record {
  timestamp = now;
  event_type = adding;
  side = side;
  price = price;
  size = size;
  order_id = none;
}

abbrev print : BookEvent
print = record (event 40 buy 1010 300) { event_type = printing }

abbrev asked : OrderBook
asked = add_order empty_book (feed_order (event 1 sell 1000 500) 90 500 1000) 1

print_bounded_example :
    (filled_total (apply_print asked print).1 ≤ 300)
    × All
        (λ f. AsGood buy (from_ticks 10 (to_ticks 10 1010)) f.fill_price)
        (apply_print asked print).1
unfolding add_order rest_at create_level find_level with_side to_ticks update_where
print_bounded_example = print_bounded asked print (refl, tt)

abbrev session : PaperExchange
session = record {
  latency = 5;
  tolerance = 1;
  clock_eps = 1;
  cash = pos 1000000;
  position = record {
    quantity = pos 0;
    avg_entry_price = record { total = 0; quantity = 1 };
    realized_pnl = record { numerator = pos 0; denominator = 1 };
  };
  engine = record { book = empty_book; event_log = []; pending_stops = [] };
  fill_history = [];
  order_history = [];
  event_log = [];
  order_seq = 0;
  inflight = [];
  market_cost_estimate = [];
  event_count = 0;
  current_time = 0;
  has_expiring = false;
}

abbrev ticket : TradeSide → ℕ → Ticket
ticket side quantity = record {
  side = side;
  quantity = quantity;
  order_type = limit;
  limit_price = some 1000;
  stop_price = none;
  time_in_force = gtc;
  expires_at = none;
}

abbrev portion : ℕ → ℕ → ℕ → ℕ
portion amount total remaining = remaining

abbrev actions : List Action
actions =
    feeds portion (event 1 sell 1000 500) 90
    ∷ submits (ticket buy 200)
    ∷ advances 20
    ∷ submits (ticket sell 100)
    ∷ feeds portion print 91
    ∷ cancels 2
    ∷ []

act_all-Balanced_example : Balanced (pos 1000000) (act_all (λ n. n) actions session)
unfolding ◌+ℤ◌ sum_by
act_all-Balanced_example = act_all-Balanced (pos 1000000) (λ n. n) actions session (refl, refl)

abbrev flying : PaperExchange
flying = record session {
  inflight =
      record { arrival = 9; order = order_for 1 (ticket buy 200) 4 }
      ∷ record { arrival = 7; order = order_for 2 (ticket buy 100) 4 }
      ∷ [];
}

advance_to-releases_example : All (λ f. is_due 1 8 f ≡ false) (advance_to 8 flying).inflight
advance_to-releases_example = advance_to-releases 8 flying
