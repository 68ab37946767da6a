-- ===== src/History/Lifecycle.antt =====
-- How the rows of the trades table may change over a history (the status of an order in
-- backend/services/paper_broker.py).
use quantumsentinel_web.Prelude.{
  ◌≡◌, refl, Bool, true, false, List, [], ◌∷◌, ◌++◌, update_where, if◌then◌else◌, ◌∙◌,
}
use quantumsentinel_web.Ledger.{Trade, TradeStatus, is_open, pending, accepted}

-- An order is accepted once, and leaves the open states for good.
pub data Moves : TradeStatus → TradeStatus → Type 0 where
  stay : {a : TradeStatus} → Moves a a
  accept : Moves pending accepted
  close : {a b : TradeStatus} → is_open a ≡ true → is_open b ≡ false → Moves a b

Moves-trans : {a b c : TradeStatus} → Moves a b → Moves b c → Moves a c
unfolding is_open
Moves-trans stay n = n
Moves-trans m stay = m
Moves-trans accept (close p q) = close refl q
Moves-trans (close p q) (close r t) = close p t
Moves-trans (close p q) accept = cc

-- What may happen to one row: an order that is no longer open keeps its outcome.
pub record RowEvolves (t u : Trade) : Type 0 where
  pub same_id : u.id ≡ t.id
  pub same_user : u.user_id ≡ t.user_id
  pub same_asset : u.asset ≡ t.asset
  pub same_side : u.side ≡ t.side
  pub same_quantity : u.quantity ≡ t.quantity
  pub same_limit : u.limit_price ≡ t.limit_price
  pub same_stop : u.stop_price ≡ t.stop_price
  pub moves : Moves t.status u.status
  pub final_price : is_open t.status ≡ false → u.filled_price ≡ t.filled_price
  pub final_time : is_open t.status ≡ false → u.filled_at ≡ t.filled_at

RowEvolves-refl : (t : Trade) → RowEvolves t t
RowEvolves-refl t = record {
  same_id = refl;
  same_user = refl;
  same_asset = refl;
  same_side = refl;
  same_quantity = refl;
  same_limit = refl;
  same_stop = refl;
  moves = stay;
  final_price = λ _. refl;
  final_time = λ _. refl;
}

Moves_final : {a b : TradeStatus} → Moves a b → is_open a ≡ false → is_open b ≡ false
unfolding is_open
Moves_final stay h = h
Moves_final accept h = cc
Moves_final (close p q) h = q

RowEvolves-trans : {t u v : Trade} → RowEvolves t u → RowEvolves u v → RowEvolves t v
RowEvolves-trans h k = record {
  same_id = k.same_id ∙ h.same_id;
  same_user = k.same_user ∙ h.same_user;
  same_asset = k.same_asset ∙ h.same_asset;
  same_side = k.same_side ∙ h.same_side;
  same_quantity = k.same_quantity ∙ h.same_quantity;
  same_limit = k.same_limit ∙ h.same_limit;
  same_stop = k.same_stop ∙ h.same_stop;
  moves = Moves-trans h.moves k.moves;
  final_price = λ o. k.final_price (Moves_final h.moves o) ∙ h.final_price o;
  final_time = λ o. k.final_time (Moves_final h.moves o) ∙ h.final_time o;
}

-- The rows stay where they are, and new ones are appended.
pub data Evolves : List Trade → List Trade → Type 0 where
  added : (us : List Trade) → Evolves [] us
  kept :
      {t u : Trade} {ts us : List Trade}
      → RowEvolves t u
      → Evolves ts us
      → Evolves (t ∷ ts) (u ∷ us)

pub Evolves-refl : (ts : List Trade) → Evolves ts ts
Evolves-refl [] = added []
Evolves-refl (t ∷ ts) = kept (RowEvolves-refl t) (Evolves-refl ts)

pub Evolves-trans : {ts us vs : List Trade} → Evolves ts us → Evolves us vs → Evolves ts vs
Evolves-trans (added us) k = added _
Evolves-trans (kept h hs) (kept k ks) = kept (RowEvolves-trans h k) (Evolves-trans hs ks)

pub Evolves-append : (ts us : List Trade) → Evolves ts (ts ++ us)
Evolves-append [] us = added us
Evolves-append (t ∷ ts) us = kept (RowEvolves-refl t) (Evolves-append ts us)

pub Evolves-update_where :
    (p : Trade → Bool) (f : Trade → Trade)
    → ((t : Trade) → p t ≡ true → RowEvolves t (f t))
    → (ts : List Trade) → Evolves ts (update_where p f ts)
unfolding update_where
Evolves-update_where p f k [] = added []
Evolves-update_where p f k (t ∷ ts) = kept (evolves (p t) (k t)) (Evolves-update_where p f k ts)
  where
    evolves : (b : Bool) → (b ≡ true → RowEvolves t (f t)) → RowEvolves t (if b then f t else t)
    evolves true h = h refl
    evolves false h = RowEvolves-refl t
