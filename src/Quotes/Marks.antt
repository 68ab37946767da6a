-- ===== src/Quotes/Marks.antt =====
-- Marks and failures in the cache of market prices (backend/services/trading_service.py).
use quantumsentinel_web.Prelude.{
  ℕ, ◌+◌, ◌<◌, ◌≡◌, ◌≢◌, refl, Option, none, some, arith, first_where,
}
use quantumsentinel_web.Quotes.{
  CachedPrice, Quotes, of_asset, Quote, unavailable, fresh_failure, fresh_price, fresh_quote,
  remember_failure, store_price, fetch, or_fetch, quote, LastPrice, executable, stale, no_price,
  judge, mark, get_mark_price, quote_failure_ttl,
}

-- A price of the asset has been observed.
abbrev pub Observed : ℕ → Quotes → Type 0
Observed asset q = first_where (of_asset asset) q.cache ≢ none

store-Observed :
    (q : Quotes) (asset price now : ℕ) (market_time : Option ℕ)
    → Observed asset (store_price q asset price market_time now)
unfolding store_price first_where
store-Observed q asset price now market_time e = ground arith

fetch-Observed :
    (q : Quotes) (asset : ℕ) (live : Option (ℕ × ℕ)) (indicative : Option ℕ) (now : ℕ)
    → Observed asset q
    → Observed asset (fetch q asset live indicative now).0
unfolding fetch remember_failure
fetch-Observed q asset (some (price, market_time)) indicative now h =
    store-Observed q asset price now (some market_time)
fetch-Observed q asset none (some price) now h = store-Observed q asset price now none
fetch-Observed q asset none none now h = h

or_fetch-Observed :
    (asset : ℕ) (decided : Option Quote) (q : Quotes) (fetched : Quotes × Quote)
    → Observed asset q
    → Observed asset fetched.0
    → Observed asset (or_fetch decided q fetched).0
unfolding or_fetch
or_fetch-Observed asset (some decided) q fetched h k = h
or_fetch-Observed asset none q fetched h k = k

quote-Observed :
    (other : Quotes → Quotes) (q : Quotes) (asset : ℕ) (live : Option (ℕ × ℕ))
    (indicative : Option ℕ) (first now : ℕ)
    → (Observed asset q → Observed asset (other q))
    → Observed asset q
    → Observed asset (quote other q asset live indicative first now).0
unfolding quote
quote-Observed other q asset live indicative first now k h =
    let waited = other q in
    let fetched = fetch waited asset live indicative now in
    or_fetch-Observed asset (fresh_quote q asset first) q
      (or_fetch (fresh_quote waited asset now) waited fetched) h
      (or_fetch-Observed asset (fresh_quote waited asset now) waited fetched (k h)
        (fetch-Observed waited asset live indicative now (k h)))

mark_found :
    (found : LastPrice) (cached : Option CachedPrice) → cached ≢ none → (mark found cached).0 ≢ none
unfolding mark
mark_found (executable price) cached h e = ground arith
mark_found (stale price) cached h e = ground arith
mark_found no_price none h e = h refl
mark_found no_price (some c) h e = ground arith

-- Once a price of an asset has been observed there is always a mark for it, whatever later fetches come
-- to, as long as what other requests do in the meantime keeps the observation.
pub mark_stays :
    (other : Quotes → Quotes) (q : Quotes) (asset : ℕ) (live : Option (ℕ × ℕ))
    (indicative : Option ℕ) (first now later max_age : ℕ)
    → (Observed asset q → Observed asset (other q))
    → Observed asset q
    → (get_mark_price max_age asset later (quote other q asset live indicative first now)).0 ≢ none
unfolding get_mark_price
mark_stays other q asset live indicative first now later max_age k h =
    let result = quote other q asset live indicative first now in
    mark_found (judge max_age later result.1) (first_where (of_asset asset) result.0.cache)
      (quote-Observed other q asset live indicative first now k h)

fresh_after :
    (q : Quotes) (asset now later : ℕ)
    → first_where (of_asset asset) q.cache ≡ none
    → later < now + quote_failure_ttl
    → fresh_quote (remember_failure q asset now) asset later ≡ some unavailable
unfolding fresh_quote remember_failure fresh_price fresh_failure first_where
fresh_after q asset now later c l = rw c (ground arith)

-- A failed fetch is remembered: until its lifetime is over, and where no price of the asset is
-- cached, the asset is unavailable without another fetch, whatever the provider would answer.
pub failure_remembered :
    (other : Quotes → Quotes) (q : Quotes) (asset : ℕ) (live : Option (ℕ × ℕ))
    (indicative : Option ℕ) (now later last : ℕ)
    → first_where (of_asset asset) q.cache ≡ none
    → later < now + quote_failure_ttl
    → let failed = (fetch q asset none none now).0 in
      quote other failed asset live indicative later last ≡ (failed, unavailable)
unfolding fetch quote or_fetch
failure_remembered other q asset live indicative now later last c l =
    rw (fresh_after q asset now later c l) refl
