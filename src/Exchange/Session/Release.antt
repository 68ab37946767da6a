-- ===== src/Exchange/Session/Release.antt =====
-- The release of orders in flight (backend/services/paper_exchange.py: advance_to).
use quantumsentinel_web.Prelude.{
  ℕ, zero, suc, ◌+◌, ◌≤◌, ◌≡◌, ◌≢◌, refl, subst, ◌∙◌, arith, Bool, true, false, ◌==◌, if_both,
  if◌then◌else◌, Option, none, some, List, [], ◌∷◌, All, Option-cases, inl, inr, first_where,
  count_where, order_by, insert_by, length, select_where, max,
}
use quantumsentinel_web.Prelude.Sorted.{first-order_by_least}
use quantumsentinel_web.Book.{Order}
use quantumsentinel_web.Engine.{FillDetails, ExchangeEvent, submit_order}
use quantumsentinel_web.Engine.Stops.{expire_orders, is_past}
use quantumsentinel_web.Exchange.{PaperExchange, InFlight}
use quantumsentinel_web.Exchange.Session.{
  is_fill_event, settle_fill, settle_details, log_event, settle, put_history, put_all, activate,
  or_now, remove_inflight, earliest, is_due, popped, release_one, release, expired_stops, expire,
  advance_to,
}

-- What settling keeps: the orders in flight and the clock.
abbrev Same : PaperExchange → PaperExchange → Type 0
Same x y = (x.inflight ≡ y.inflight) × (x.clock_eps ≡ y.clock_eps)

details-Same :
    (ev : ExchangeEvent) (d : Option FillDetails) (x : PaperExchange)
    → Same (settle_details ev d x) x
unfolding settle_fill
details-Same ev none x = (refl, refl)
details-Same ev (some d) x =
    if_both (λ y. Same y x) (is_fill_event ev.event_type) (λ e. (refl, refl)) (λ e. (refl, refl))

settle-Same : (events : List ExchangeEvent) (x : PaperExchange) → Same (settle events x) x
unfolding settle
settle-Same [] x = (refl, refl)
settle-Same (ev ∷ events) x =
    let one = details-Same ev ev.details (log_event ev x) in
    let rest = settle-Same events (settle_details ev ev.details (log_event ev x)) in
    (rest.0 ∙ one.0, rest.1 ∙ one.1)

put_all-Same : (orders : List Order) (x : PaperExchange) → Same (put_all orders x) x
unfolding put_all put_history
put_all-Same [] x = (refl, refl)
put_all-Same (o ∷ orders) x = put_all-Same orders (put_history o x)

activate-Same : (o : Order) (x : PaperExchange) → Same (activate o x) x
unfolding activate put_history
activate-Same o x =
    let r = submit_order x.engine o (or_now x.current_time o.active_at) in
    settle-Same r.1.events (put_history r.1.order (record x { engine = r.0 }))

expire-Same : (x : PaperExchange) → Same (expire x) x
unfolding expire
expire-Same x =
    let r = expire_orders x.engine x.current_time in
    let past = select_where (λ o. is_past x.current_time o.expires_at) x.engine.pending_stops in
    let stops = expired_stops x.current_time past in
    let put = put_all-Same stops (record x { engine = r.0 }) in
    let settled = settle-Same r.1 (put_all stops (record x { engine = r.0 })) in
    (settled.0 ∙ put.0, settled.1 ∙ put.1)

count-insert :
    (p : InFlight → Bool) (f : InFlight) (xs : List InFlight)
    → count_where p (insert_by (λ y. y.arrival) f xs) ≡ (if p f then 1 else 0) + count_where p xs
unfolding count_where insert_by
count-insert p f [] = refl
count-insert p f (x ∷ xs) = ground (arith, count-insert p f xs)

count-order_by :
    (p : InFlight → Bool) (xs : List InFlight)
    → count_where p (order_by (λ y. y.arrival) xs) ≡ count_where p xs
unfolding count_where order_by
count-order_by p [] = refl
count-order_by p (x ∷ xs) =
    ground (arith, count-insert p x (order_by (λ y. y.arrival) xs), count-order_by p xs)

count-first :
    (p : InFlight → Bool) (f : InFlight) (xs : List InFlight)
    → first_where (λ y. true) xs ≡ some f
    → p f ≡ true
    → count_where p xs ≢ 0
unfolding count_where first_where
count-first p f [] e h = absurd (ground arith)
count-first p f (x ∷ xs) e h = ground (arith, e, h)

none-earliest : (xs : List InFlight) → earliest xs ≡ none → length xs ≡ 0
unfolding earliest
none-earliest [] e = refl
none-earliest (x ∷ xs) e = absurd (head_some x (order_by (λ y. y.arrival) xs) e)
  where
    head_some :
        (f : InFlight) (ys : List InFlight)
        → first_where (λ y. true) (insert_by (λ y. y.arrival) f ys) ≢ none
    head_some f [] h = ground arith
    head_some f (y ∷ ys) h = ground arith

-- The order that is popped leaves one less in flight.
length-remove :
    (order_id : ℕ) (xs : List InFlight)
    → count_where (λ f. f.order.order_id == order_id) xs ≢ 0
    → suc (length (remove_inflight order_id xs)) ≡ length xs
unfolding count_where remove_inflight
length-remove order_id [] h = absurd (h refl)
length-remove order_id (x ∷ xs) h = ground (arith, length-remove order_id xs)

popped_less :
    (f : InFlight) (xs : List InFlight)
    → earliest xs ≡ some f
    → suc (length (remove_inflight f.order.order_id xs)) ≡ length xs
unfolding earliest
popped_less f xs e = length-remove f.order.order_id xs (λ z.
    count-first (λ g. g.order.order_id == f.order.order_id) f (order_by (λ y. y.arrival) xs) e
      (ground arith) (count-order_by (λ g. g.order.order_id == f.order.order_id) xs ∙ z))

none_due :
    (clock_eps timestamp : ℕ) (f : InFlight) (xs : List InFlight)
    → is_due clock_eps timestamp f ≡ false
    → All (λ y. f.arrival ≤ y.arrival) xs
    → All (λ y. is_due clock_eps timestamp y ≡ false) xs
none_due clock_eps timestamp f [] h a = tt
none_due clock_eps timestamp f (x ∷ xs) h a =
    (ground (arith, h, a.0), none_due clock_eps timestamp f xs h a.1)

earliest-least :
    (xs : List InFlight) (f : InFlight) → earliest xs ≡ some f → All (λ y. f.arrival ≤ y.arrival) xs
unfolding earliest
earliest-least xs f e = first-order_by_least (λ y. y.arrival) xs f e

AllRest : ℕ → PaperExchange → Type 0
AllRest timestamp x = All (λ f. is_due x.clock_eps timestamp f ≡ false) x.inflight

empty_rests : (x : PaperExchange) (timestamp : ℕ) → length x.inflight ≡ 0 → AllRest timestamp x
unfolding AllRest
empty_rests x timestamp h = go x.inflight h
  where
    go : (xs : List InFlight) → length xs ≡ 0 → All (λ f. is_due x.clock_eps timestamp f ≡ false) xs
    go [] e = tt
    go (y ∷ ys) e = absurd (omega (arith, e))

release-AllRest :
    (n timestamp : ℕ) (x : PaperExchange)
    → length x.inflight ≤ n
    → AllRest timestamp (release n timestamp x)
unfolding release release_one AllRest
release-AllRest zero timestamp x h = empty_rests x timestamp (omega (arith, h))
release-AllRest (suc n) timestamp x h = elim (Option-cases (earliest x.inflight)) [
  | inl e ↦ rw e (empty_rests x timestamp (none-earliest x.inflight e))
  | inr (f, e) ↦
      let same = activate-Same f.order (popped f x) in
      let less = popped_less f x.inflight e in
      rw e (
        if_both (AllRest timestamp) (is_due x.clock_eps timestamp f)
          (λ d.
            release-AllRest n timestamp (activate f.order (popped f x))
              (rw same.0 (omega (arith, less, h))))
          (λ d. none_due x.clock_eps timestamp f x.inflight d (earliest-least x.inflight f e)))
]

release-eps :
    (n timestamp : ℕ) (x : PaperExchange) → (release n timestamp x).clock_eps ≡ x.clock_eps
unfolding release release_one
release-eps zero timestamp x = refl
release-eps (suc n) timestamp x = elim (Option-cases (earliest x.inflight)) [
  | inl e ↦ rw e refl
  | inr (f, e) ↦ rw e (
      if_both (λ (y : PaperExchange). y.clock_eps ≡ x.clock_eps) (is_due x.clock_eps timestamp f)
        (λ d.
          release-eps n timestamp (activate f.order (popped f x))
          ∙ (activate-Same f.order (popped f x)).1)
        (λ d. refl))
]

-- Moving the clock ends, with fuel for as many rounds as there are orders in flight: whatever the
-- released orders do, none that is due at the new time is left in flight.
pub advance_to-releases :
    (timestamp : ℕ) (x : PaperExchange)
    → All (λ f. is_due x.clock_eps timestamp f ≡ false) (advance_to timestamp x).inflight
unfolding advance_to AllRest
advance_to-releases timestamp x =
    let released = release (length x.inflight) timestamp x in
    let rests = release-AllRest (length x.inflight) timestamp x (omega arith) in
    let now : PaperExchange = record released {
      current_time = max released.current_time timestamp;
    } in
    let kept = release-eps (length x.inflight) timestamp x in
    let done : All (λ f. is_due x.clock_eps timestamp f ≡ false) released.inflight =
      subst (λ n. All (λ f. is_due n timestamp f ≡ false) released.inflight) kept rests in
    if_both (λ (y : PaperExchange). All (λ f. is_due x.clock_eps timestamp f ≡ false) y.inflight)
      now.has_expiring (λ e. rw (expire-Same now).0 done) (λ e. done)
