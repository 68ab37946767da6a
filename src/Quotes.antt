-- ===== src/Quotes.antt =====
-- The cache of market prices (backend/services/trading_service.py: _quote to get_mark_price). What the market
-- data provider answers to one fetch is an argument: the live quote with the time of its trade, or a
-- price without one. Prices are only stored, so they are numbers here.
pub mod Marks
use quantumsentinel_web.Prelude.{
  ℕ, ◌+◌, Bool, true, false, not, ltb, leb, ◌==◌, if◌then◌else◌, Option, none, some, List, [], ◌∷◌,
  select_where, first_where, count_where,
}

-- An element of `_price_cache`.
pub record CachedPrice : Type 0 where
  pub asset : ℕ
  pub price : ℕ
  pub fetched_at : ℕ
  pub market_time : Option ℕ

-- An element of `_quote_failures`.
pub record QuoteFailure : Type 0 where
  pub asset : ℕ
  pub failed_at : ℕ

pub record Quotes : Type 0 where
  pub cache : List CachedPrice
  pub failures : List QuoteFailure

abbrev pub price_cache_ttl : ℕ
price_cache_ttl = 20

abbrev pub quote_failure_ttl : ℕ
quote_failure_ttl = 20

abbrev pub quote_failures_prune_at : ℕ
quote_failures_prune_at = 1024

abbrev pub of_asset : ℕ → CachedPrice → Bool
of_asset asset c = c.asset == asset

abbrev pub failure_of : ℕ → QuoteFailure → Bool
failure_of asset f = f.asset == asset

-- A price with the time of its trade, or MarketDataUnavailable.
pub data Quote : Type 0 where
  quoted : ℕ → Option ℕ → Quote
  unavailable : Quote

unfoldable pub fresh_failure : Option QuoteFailure → ℕ → Option Quote
fresh_failure none now = none
fresh_failure (some f) now =
    if ltb now (f.failed_at + quote_failure_ttl) then some unavailable else none

unfoldable pub fresh_price : Option CachedPrice → Option Quote → ℕ → Option Quote
fresh_price none otherwise now = otherwise
fresh_price (some c) otherwise now =
    if ltb now (c.fetched_at + price_cache_ttl)
    then some (quoted c.price c.market_time)
    else otherwise

-- `none`: the cache decides nothing.
unfoldable pub fresh_quote : Quotes → ℕ → ℕ → Option Quote
unfolding fresh_price fresh_failure
fresh_quote q asset now =
    fresh_price (first_where (of_asset asset) q.cache)
      (fresh_failure (first_where (failure_of asset) q.failures) now) now

unfoldable pub prune_failures : ℕ → List QuoteFailure → List QuoteFailure
prune_failures now failures =
    if leb quote_failures_prune_at (count_where (λ f. true) failures)
    then select_where (λ f. not (leb (f.failed_at + quote_failure_ttl) now)) failures
    else failures

unfoldable pub remember_failure : Quotes → ℕ → ℕ → Quotes
unfolding prune_failures
remember_failure q asset now = record q {
  failures =
      record { asset = asset; failed_at = now }
      ∷ select_where (λ f. not (failure_of asset f)) (prune_failures now q.failures);
}

-- The cache takes the price, and the failure is forgotten.
unfoldable pub store_price : Quotes → ℕ → ℕ → Option ℕ → ℕ → Quotes
store_price q asset price market_time now = record {
  cache =
      record { asset = asset; price = price; fetched_at = now; market_time = market_time }
      ∷ select_where (λ c. not (of_asset asset c)) q.cache;
  failures = select_where (λ f. not (failure_of asset f)) q.failures;
}

-- One fetch: the live quote, else a price for valuation, else a failure.
unfoldable pub fetch : Quotes → ℕ → Option (ℕ × ℕ) → Option ℕ → ℕ → Quotes × Quote
unfolding store_price remember_failure
fetch q asset (some (price, market_time)) indicative now =
    (store_price q asset price (some market_time) now, quoted price (some market_time))
fetch q asset none (some price) now = (store_price q asset price none now, quoted price none)
fetch q asset none none now = (remember_failure q asset now, unavailable)

unfoldable pub or_fetch : Option Quote → Quotes → Quotes × Quote → Quotes × Quote
or_fetch (some quote) q fetched = (q, quote)
or_fetch none q fetched = fetched

-- `first` and `now` are the times before and after the wait for the lock, `other` what the requests that
-- held it did.
unfoldable pub quote :
    (Quotes → Quotes) → Quotes → ℕ → Option (ℕ × ℕ) → Option ℕ → ℕ → ℕ → Quotes × Quote
unfolding fresh_quote or_fetch fetch
quote other q asset live indicative first now =
    let waited = other q in
    or_fetch (fresh_quote q asset first) q
      (or_fetch (fresh_quote waited asset now) waited (fetch waited asset live indicative now))

pub data LastPrice : Type 0 where
  executable : ℕ → LastPrice
  stale : ℕ → LastPrice
  no_price : LastPrice

-- At the time `now`, with the greatest age of a quote.
unfoldable pub judge : ℕ → ℕ → Quote → LastPrice
judge max_age now unavailable = no_price
judge max_age now (quoted price none) = stale price
judge max_age now (quoted price (some at)) =
    if ltb (at + max_age) now then stale price else executable price

unfoldable pub get_last_price : ℕ → ℕ → Quotes × Quote → Quotes × LastPrice
unfolding judge
get_last_price max_age now (q, found) = (q, judge max_age now found)

-- The mark and whether it is stale.
unfoldable pub mark : LastPrice → Option CachedPrice → Option ℕ × Bool
mark (executable price) cached = (some price, false)
mark (stale price) cached = (some price, true)
mark no_price none = (none, true)
mark no_price (some c) = (some c.price, true)

unfoldable pub get_mark_price : ℕ → ℕ → ℕ → Quotes × Quote → Option ℕ × Bool
unfolding mark judge
get_mark_price max_age asset now (q, found) =
    mark (judge max_age now found) (first_where (of_asset asset) q.cache)
