-- ===== src/Checks/Prices.antt =====
-- The cache of market prices, with one price of asset 3.
use quantumsentinel_web.Prelude.{◌≢◌, none, some, [], ◌∷◌, arith, first_where}
use quantumsentinel_web.Quotes.{Quotes, quote, get_mark_price}
use quantumsentinel_web.Quotes.Marks.{mark_stays}

abbrev empty : Quotes
empty = record { cache = []; failures = [] }

abbrev observed : Quotes
observed = record {
  cache = record { asset = 3; price = 150; fetched_at = 10; market_time = some 9 } ∷ [];
  failures = [];
}

mark_stays_example :
    (get_mark_price 900 3 101 (quote (λ q. q) observed 3 none none 100 100)).0 ≢ none
unfolding first_where
mark_stays_example =
    mark_stays (λ q. q) observed 3 none none 100 100 101 900 (λ h. h) (λ e. ground arith)
