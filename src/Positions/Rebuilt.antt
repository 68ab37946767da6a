-- ===== src/Positions/Rebuilt.antt =====
-- The positions table after a rebuild (backend/services/portfolio_service.py).
use quantumsentinel_web.Prelude.{
  ℕ, ◌≡◌, refl, sym, ◌∙◌, ap, subst, Bool, false, not, ◌&&◌, ◌==◌, if◌then◌else◌, List, [], ◌∷◌,
  ◌++◌, arith, select_where, order_by, All, Bool-cases, inl, inr,
}
use quantumsentinel_web.Prelude.Sorted.{select-order_by}
use quantumsentinel_web.Money.Float.{Float, float_zero, lt}
use quantumsentinel_web.Ledger.{Trade, Tables, Position}
use quantumsentinel_web.Positions.{
  hold_float, book_trade, book_all, user_book, fills_of, fill_time, position_rows, positions_of,
  rebuild_positions,
}

-- What the trades add up to, bought and sold one after another.
unfoldable pub add_up : List Trade → Float → Float
add_up [] held = held
add_up (t ∷ ts) held = add_up ts (hold_float t.side t.quantity held)

-- The filled trades of a user in an asset, in the order of their times.
unfoldable pub fills_in : ℕ → ℕ → List Trade → List Trade
unfolding select_where order_by
fills_in user asset trades =
    order_by fill_time (select_where (λ t. fills_of user t && t.asset == asset) trades)

-- The quantity that a book has for an asset.
unfoldable book_quantity : ℕ → List (ℕ × Float) → Float
book_quantity asset [] = float_zero
book_quantity asset ((a, quantity) ∷ book) =
    if a == asset then quantity else book_quantity asset book

abbrev of_asset : ℕ → Trade → Bool
of_asset asset t = t.asset == asset

book_trade-quantity :
    (asset : ℕ) (t : Trade) (book : List (ℕ × Float))
    → book_quantity asset (book_trade t book) ≡ (
        if t.asset == asset
        then hold_float t.side t.quantity (book_quantity asset book)
        else book_quantity asset book)
unfolding book_quantity book_trade
book_trade-quantity asset t [] = ground arith
book_trade-quantity asset t ((a, quantity) ∷ book) =
    ground (arith, book_trade-quantity asset t book)

book_all-quantity :
    (asset : ℕ) (ts : List Trade) (book : List (ℕ × Float))
    → book_quantity asset (book_all ts book)
      ≡ add_up (select_where (of_asset asset) ts) (book_quantity asset book)
unfolding book_all add_up select_where
book_all-quantity asset [] book = refl
book_all-quantity asset (t ∷ ts) book =
    ground (arith, book_all-quantity asset ts (book_trade t book), book_trade-quantity asset t book)

select-both :
    (user asset : ℕ) (ts : List Trade)
    → select_where (λ t. fills_of user t && t.asset == asset) ts
      ≡ select_where (of_asset asset) (select_where (fills_of user) ts)
unfolding select_where
select-both user asset [] = refl
select-both user asset (t ∷ ts) = ground (arith, select-both user asset ts)

user_book-quantity :
    (user asset : ℕ) (trades : List Trade)
    → book_quantity asset (user_book user trades) ≡ add_up (fills_in user asset trades) float_zero
unfolding user_book book_quantity fills_in
user_book-quantity user asset trades =
    book_all-quantity asset (order_by fill_time (select_where (fills_of user) trades)) []
    ∙ ap (λ ts. add_up ts float_zero)
        (select-order_by fill_time (of_asset asset) (select_where (fills_of user) trades)
          ∙ ap (order_by fill_time) (sym (select-both user asset trades)))

-- No entry of the book is of the asset, and each asset has one entry.
abbrev Lacks : ℕ → List (ℕ × Float) → Type 0
Lacks asset book = All (λ e. (e.0 == asset) ≡ false) book

abbrev Once : List (ℕ × Float) → Type 0
Once [] = Unit
Once ((a, q) ∷ book) = Lacks a book × Once book

Lacks-book_trade :
    (asset : ℕ) (t : Trade) (book : List (ℕ × Float))
    → (t.asset == asset) ≡ false
    → Lacks asset book
    → Lacks asset (book_trade t book)
unfolding book_trade
Lacks-book_trade asset t [] n l = (n, tt)
Lacks-book_trade asset t ((a, q) ∷ book) n l = elim (Bool-cases (a == t.asset)) [
  | inl e ↦ rw e (l.0, l.1)
  | inr e ↦ rw e (l.0, Lacks-book_trade asset t book n l.1)
]

differs : (a b : ℕ) → (a == b) ≡ false → (b == a) ≡ false
differs a b e = ground arith

Once-book_trade : (t : Trade) (book : List (ℕ × Float)) → Once book → Once (book_trade t book)
unfolding book_trade
Once-book_trade t [] o = (tt, tt)
Once-book_trade t ((a, q) ∷ book) o = elim (Bool-cases (a == t.asset)) [
  | inl e ↦ rw e (o.0, o.1)
  | inr e ↦ rw e (Lacks-book_trade a t book (differs a t.asset e) o.0, Once-book_trade t book o.1)
]

Once-book_all : (ts : List Trade) (book : List (ℕ × Float)) → Once book → Once (book_all ts book)
unfolding book_all
Once-book_all [] book o = o
Once-book_all (t ∷ ts) book o = Once-book_all ts (book_trade t book) (Once-book_trade t book o)

-- The rows of the positions table of a user in an asset.
abbrev pub position_of : ℕ → ℕ → Position → Bool
position_of user asset p = p.user_id == user && p.asset == asset

select-append :
    (p : Position → Bool) (xs ys : List Position)
    → select_where p (xs ++ ys) ≡ select_where p xs ++ select_where p ys
unfolding select_where
select-append p [] ys = refl
select-append p (x ∷ xs) ys = ground (arith, select-append p xs ys)

select-rows_same :
    (user asset : ℕ) (q : Float)
    → select_where (position_of user asset) (position_rows user asset q)
      ≡ position_rows user asset q
unfolding select_where position_rows
select-rows_same user asset q = ground arith

select-rows_other :
    (user asset a : ℕ) (q : Float)
    → (a == asset) ≡ false
    → select_where (position_of user asset) (position_rows user a q) ≡ []
unfolding select_where position_rows
select-rows_other user asset a q e = ground arith

select-lacking :
    (user asset : ℕ) (book : List (ℕ × Float))
    → Lacks asset book
    → select_where (position_of user asset) (positions_of user book) ≡ []
unfolding positions_of select_where
select-lacking user asset [] l = refl
select-lacking user asset ((a, q) ∷ book) l =
    rw
      (
        select-append (position_of user asset) (position_rows user a q) (positions_of user book),
        select-rows_other user asset a q l.0,
        select-lacking user asset book l.1,
      )
      refl

append-nil : (xs : List Position) → xs ++ [] ≡ xs
append-nil [] = refl
append-nil (x ∷ xs) = ap (λ ys. x ∷ ys) (append-nil xs)

none_flat : (user asset : ℕ) → [] ≡ position_rows user asset float_zero
unfolding position_rows lt
none_flat user asset = refl

select-positions :
    (user asset : ℕ) (book : List (ℕ × Float))
    → Once book
    → select_where (position_of user asset) (positions_of user book)
      ≡ position_rows user asset (book_quantity asset book)
unfolding positions_of select_where book_quantity
select-positions user asset [] o = none_flat user asset
select-positions user asset ((a, q) ∷ book) o = elim (Bool-cases (a == asset)) [
  | inl e ↦
      let same : a ≡ asset = ground arith in
      let lacks : Lacks asset book = subst (λ k. Lacks k book) same o.0 in
      rw
        (
          select-append (position_of user asset) (position_rows user a q) (positions_of user book),
          select-lacking user asset book lacks,
          append-nil (select_where (position_of user asset) (position_rows user a q)),
          e,
          same,
        )
        (select-rows_same user asset q)
  | inr e ↦
      rw
        (
          select-append (position_of user asset) (position_rows user a q) (positions_of user book),
          select-rows_other user asset a q e,
          e,
        )
        (select-positions user asset book o.1)
]

removed :
    (user asset : ℕ) (ps : List Position)
    → select_where (position_of user asset) (select_where (λ p. not (p.user_id == user)) ps) ≡ []
unfolding select_where
removed user asset [] = refl
removed user asset (p ∷ ps) = ground (arith, removed user asset ps)

-- After a rebuild the positions table has one row of the user in an asset, or none where the holding
-- is flat, and the holding is what the user's filled trades in that asset alone add up to in floats,
-- in the order of their times: no row that was there before is left, and no other asset counts.
pub rebuild_positions-exact :
    (user asset : ℕ) (w : Tables)
    → select_where (position_of user asset) (rebuild_positions user w).positions
      ≡ position_rows user asset (add_up (fills_in user asset w.trades) float_zero)
unfolding rebuild_positions user_book
rebuild_positions-exact user asset w =
    let book = user_book user w.trades in
    let kept = select_where (λ p. not (p.user_id == user)) w.positions in
    let mine = positions_of user book in
    select-append (position_of user asset) kept mine
    ∙ ap (λ ps. ps ++ select_where (position_of user asset) mine) (removed user asset w.positions)
    ∙ select-positions user asset book
        (Once-book_all (order_by fill_time (select_where (fills_of user) w.trades)) [] tt)
    ∙ ap (position_rows user asset) (user_book-quantity user asset w.trades)
