-- ===== src/Book/Queues.antt =====
-- Positions in a level's queue (backend/services/order_book.py: refresh_queue_positions).
use quantumsentinel_web.Prelude.{
  ℕ, ◌+◌, ◌<◌, ◌≡◌, ◌≢◌, ◌∙◌, ap, sym, refl, inl, inr, false, Option, none, some, List, [], ◌∷◌,
  arith, All, Bool-cases,
}
use quantumsentinel_web.Book.{
  is_feed, Order, Orders, count_orders, order_at, update_at, size_of, positioned,
  refresh_queue_positions,
}

-- The addresses are different from one another.
abbrev pub Distinct : List ℕ → Type 0
Distinct [] = Unit
Distinct (a ∷ addresses) = All (λ b. b ≢ a) addresses × Distinct addresses

-- With `ahead` in front of the first: every paper order knows what is in front of it.
abbrev pub Ahead : ℕ → Orders → List ℕ → Type 0
Ahead ahead orders [] = Unit
Ahead ahead orders (a ∷ addresses) =
    ((o : Order) → order_at orders a ≡ some o → is_feed o.owner ≡ false → o.queue_ahead ≡ ahead)
    × Ahead (ahead + size_of (order_at orders a)) orders addresses

order_at-below :
    (n : ℕ) (orders : Orders) (o : Order) → order_at orders n ≡ some o → n < count_orders orders
unfolding order_at count_orders
order_at-below n [] o h = cc
order_at-below n (p ∷ orders) o h = ground (arith, order_at-below n orders o)

count_orders-update_at :
    (n : ℕ) (f : Order → Order) (orders : Orders)
    → count_orders (update_at n f orders) ≡ count_orders orders
unfolding count_orders update_at
count_orders-update_at n f [] = refl
count_orders-update_at n f (o ∷ orders) = ground (arith, count_orders-update_at n f orders)

order_at-other :
    (a b : ℕ) (f : Order → Order) (orders : Orders)
    → b ≢ a
    → order_at (update_at a f orders) b ≡ order_at orders b
unfolding order_at update_at
order_at-other a b f [] n = refl
order_at-other a b f (o ∷ orders) n =
    ground (arith, order_at-other a b f orders n, count_orders-update_at a f orders)

abbrev mapped : (Order → Order) → Option Order → Option Order
mapped f found = elim found [ none ↦ none | some o ↦ some (f o) ]

order_at-same :
    (a : ℕ) (f : Order → Order) (orders : Orders)
    → order_at (update_at a f orders) a ≡ mapped f (order_at orders a)
unfolding order_at update_at
order_at-same a f [] = refl
order_at-same a f (o ∷ orders) =
    ground (arith, order_at-same a f orders, count_orders-update_at a f orders)

order_at-refresh :
    (ahead b : ℕ) (addresses : List ℕ) (orders : Orders)
    → All (λ a. a ≢ b) addresses
    → order_at (refresh_queue_positions ahead addresses orders) b ≡ order_at orders b
unfolding refresh_queue_positions
order_at-refresh ahead b [] orders n = refl
order_at-refresh ahead b (a ∷ addresses) orders n =
    order_at-refresh (ahead + size_of (order_at orders a)) b addresses
      (update_at a (positioned ahead) orders) n.1
    ∙ order_at-other a b (positioned ahead) orders (λ e. n.0 (sym e))

size-positioned :
    (ahead : ℕ) (found : Option Order) → size_of (mapped (positioned ahead) found) ≡ size_of found
size-positioned ahead none = refl
size-positioned ahead (some o) = elim (Bool-cases (is_feed o.owner)) [
  | inl e ↦ rw e refl
  | inr e ↦ rw e refl
]

ahead-positioned :
    (ahead : ℕ) (found : Option Order) (o : Order)
    → mapped (positioned ahead) found ≡ some o
    → is_feed o.owner ≡ false
    → o.queue_ahead ≡ ahead
ahead-positioned ahead none o h k = cc
ahead-positioned ahead (some p) o h k = ground arith

-- After a refresh every paper order of a level has, as its position, the remaining size of all the orders
-- in front of it, of the feed and of ours. No order stands in the level twice.
pub refresh-Ahead :
    (ahead : ℕ) (addresses : List ℕ) (orders : Orders)
    → Distinct addresses
    → Ahead ahead (refresh_queue_positions ahead addresses orders) addresses
unfolding refresh_queue_positions
refresh-Ahead ahead [] orders d = tt
refresh-Ahead ahead (a ∷ addresses) orders d =
    let orders' = update_at a (positioned ahead) orders in
    let behind = ahead + size_of (order_at orders a) in
    let here =
      order_at-refresh behind a addresses orders' d.0 ∙ order_at-same a (positioned ahead) orders in
    (
      λ o h k. ahead-positioned ahead (order_at orders a) o (sym here ∙ h) k,
      rw (ap size_of here ∙ size-positioned ahead (order_at orders a))
          (refresh-Ahead behind addresses orders' d.1),
    )
