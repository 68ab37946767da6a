-- ===== src/History/Keeps.antt =====
-- What a predicate of the tables has to survive to hold of every session that the broker produces:
-- one law for each statement that the broker issues.
use quantumsentinel_web.Prelude.{
  ℕ, ◌+◌, ◌≡◌, refl, Bool, true, false, ◌&&◌, ◌==◌, ltb, if◌then◌else◌, Option, some, [], ◌∷◌, ◌++◌,
  arith, update_where,
}
use quantumsentinel_web.Money.{Decimal, limit, notional_micros, Side}
use quantumsentinel_web.Ledger.{
  Tables, Session, rollback, Trade, TradeStatus, is_open, is_pending, accepted, rejected,
  opened_account, can_reserve, get_or_create_account, try_reserve, release,
}
use quantumsentinel_web.Positions.{rebuild_positions}
use quantumsentinel_web.Broker.{
  cas_status, reserved_or, close_order, accept_order, fill_values, Settlement, settled, refused,
  settle, finish_fill, fill_order,
}

abbrev pub Settles : (Tables → Type 0) → Settlement → Type 0
Settles P (settled w) = P w
Settles P (refused reason) = Unit

pub record Keeps (P : Tables → Type 0) : Type 0 where
  pub open_account :
      (user : ℕ) (w : Tables)
      → P w
      → P (record w { accounts = w.accounts ++ opened_account user w.trades ∷ [] })
  pub reserve :
      (user amount : ℕ) (w : Tables)
      → P w
      → P (record w {
        accounts =
            update_where
              (can_reserve user amount)
              (λ a. record a { reserved_micros = a.reserved_micros + amount })
              w.accounts;
      })
  pub give_back : (user amount : ℕ) (w : Tables) → P w → P (release user amount w)
  pub close :
      (id : ℕ) (to_status : TradeStatus) (w : Tables)
      → is_open to_status ≡ false
      → P w
      → P (cas_status id (λ row. record row { status = to_status }) w).0
  pub accept :
      (id : ℕ) (w : Tables)
      → P w
      → P (record w {
        trades =
            update_where
              (λ row. row.id == id && is_pending row.status)
              (λ row. record row { status = accepted })
              w.trades;
      })
  pub fill :
      (id : ℕ) (price : Decimal) (now : ℕ) (w : Tables)
      → P w
      → P (cas_status id (fill_values price now) w).0
  pub pays :
      (side : Side) (t : Trade) (cost reserved : ℕ) (w : Tables)
      → P w
      → Settles P (settle side t cost reserved w)
  pub rebuild : (user : ℕ) (w : Tables) → P w → P (rebuild_positions user w)
  pub retype :
      (p : Trade → Bool) (w : Tables)
      → P w
      → P (record w { trades = update_where p (λ row. record row { order_type = limit }) w.trades })
  pub insert : (t : Trade) (w : Tables) → P w → P (record w { trades = w.trades ++ t ∷ [] })

-- `P` holds of what is committed and of what the session sees.
pub record Both (P : Tables → Type 0) (s : Session) : Type 0 where
  pub committed : P s.committed
  pub working : P s.working

module _ {P : Tables → Type 0} (k : Keeps P) where
  pub get_or_create_account-Both :
      (s : Session) (user : ℕ) → Both P s → Both P (get_or_create_account s user).0
  unfolding get_or_create_account
  get_or_create_account-Both s user h = ground (arith, k.open_account user s.working h.working)

  pub try_reserve-Both :
      (s : Session) (user amount : ℕ) → Both P s → Both P (try_reserve s user amount).0
  unfolding try_reserve
  try_reserve-Both s user amount h = ground (arith, k.reserve user amount s.working h.working)

  release_if :
      (b : Bool) (user amount : ℕ) (w : Tables) → P w → P (if b then release user amount w else w)
  release_if true user amount w h = k.give_back user amount w h
  release_if false user amount w h = h

  pub close_order-Both :
      (s : Session) (t : Trade) (to_status : TradeStatus) (given : Option ℕ)
      → is_open to_status ≡ false
      → Both P s
      → Both P (close_order s t to_status given).0
  unfolding close_order
  close_order-Both s t to_status given o h =
      let reserved = reserved_or given t in
      let closed =
        release_if (ltb 0 reserved) t.user_id reserved _
          (k.close t.id to_status s.working o h.working) in
      ground (arith, closed)

  pub accept_order-Both : (s : Session) (t : Trade) → Both P s → Both P (accept_order s t).0
  unfolding accept_order
  accept_order-Both s t h =
      let w = k.accept t.id s.working h.working in record { committed = w; working = w }

  finish_fill-Both :
      (s : Session) (t : Trade) (reserved : ℕ) (r : Settlement)
      → Both P s
      → Settles P r
      → Both P (finish_fill s t reserved r).0
  unfolding finish_fill
  finish_fill-Both s t reserved (settled w) h p =
      let r = k.rebuild t.user_id w p in record { committed = r; working = r }
  finish_fill-Both s t reserved (refused reason) h p =
      close_order-Both (rollback s) t rejected (some reserved) (unfold is_open in refl)
        (record { committed = h.committed; working = h.committed })

  pub fill_order-Both :
      (s : Session) (t : Trade) (fill_price : Decimal) (given : Option ℕ) (now : ℕ)
      → Both P s
      → Both P (fill_order s t fill_price given now).0
  unfolding fill_order
  fill_order-Both s t fill_price given now h =
      let w = (cas_status t.id (fill_values fill_price now) s.working).0 in
      let reserved = reserved_or given t in
      let cost = notional_micros t.quantity fill_price in
      let p = k.fill t.id fill_price now s.working h.working in
      let done =
        finish_fill-Both (record s { working = w }) t reserved (settle t.side t cost reserved w)
          (record { committed = h.committed; working = p }) (k.pays t.side t cost reserved w p) in
      ground (arith, done)
