-- ===== src/Book/Event.antt =====
-- An event of the market-data feed (backend/services/market_microstructure.py: BookEvent).
use quantumsentinel_web.Prelude.{ℕ, Option}
use quantumsentinel_web.Book.{TradeSide}

pub data BookEventType : Type 0 where
  adding cancelling modifying printing : BookEventType

pub record BookEvent : Type 0 where
  pub timestamp : ℕ
  pub event_type : BookEventType
  pub side : TradeSide
  pub price : ℕ
  pub size : ℕ
  pub order_id : Option ℕ
