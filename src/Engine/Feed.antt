-- ===== src/Engine/Feed.antt =====
-- The engine's side of a feed event (backend/services/matching_engine.py: on_market_event).
use quantumsentinel_web.Prelude.{ℕ, false, Option, none, some, List, [], ◌∷◌, ◌++◌}
use quantumsentinel_web.Book.{Order, Fill}
use quantumsentinel_web.Book.Levels.{OrderBook, get_order}
use quantumsentinel_web.Book.Event.{BookEventType, printing, BookEvent}
use quantumsentinel_web.Book.Feed.{apply_market_event}
use quantumsentinel_web.Engine.{ExchangeEvent, MatchingEngine, fill_event}
use quantumsentinel_web.Engine.Stops.{Triggered, check_stop_triggers}

abbrev maker_event : ℕ → Fill → Option Order → List ExchangeEvent
maker_event now f none = []
maker_event now f (some o) = fill_event f.fill_price f.fill_quantity now false o ∷ []

-- The events of the resting orders that were filled, each with its order as the feed event leaves it.
unfoldable pub maker_events : ℕ → OrderBook → List Fill → List ExchangeEvent
unfolding get_order
maker_events now b [] = []
maker_events now b (f ∷ fills) =
    maker_event now f (get_order b f.order_id) ++ maker_events now b fills

unfoldable pub trigger_stops : BookEventType → BookEvent → MatchingEngine → OrderBook → Triggered
unfolding check_stop_triggers
trigger_stops printing event e b = check_stop_triggers event.price event.timestamp e.pending_stops b
trigger_stops _ event e b = record {
  book = b;
  waiting = e.pending_stops;
  executed = [];
  events = [];
}

-- The engine, the triggered orders as they were executed, and the events.
unfoldable pub on_market_event :
    (ℕ → ℕ → ℕ → ℕ)
    → MatchingEngine
    → BookEvent
    → ℕ
    → MatchingEngine × List Order × List ExchangeEvent
unfolding apply_market_event maker_events trigger_stops
on_market_event portion e event drawn =
    let (b, fills) = apply_market_event portion e.book event drawn in
    let makers = maker_events event.timestamp b fills in
    let t = trigger_stops event.event_type event e b in
    let events = makers ++ t.events in
    (
      record { book = t.book; event_log = e.event_log ++ events; pending_stops = t.waiting },
      t.executed,
      events,
    )
