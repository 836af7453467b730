-- ===== src/Internal/EventBus/Visible.antt =====
-- internal/event_bus.go: which paths `EventsPath` shows to an infra component.
use dt_go.Base.{true, ◌≡◌, ◌↔◌, In, String, keep-In}
use dt_go.Internal.EventBus.{EventBus, is_shown, events_path}

-- `EventsPath` shows an infra component exactly the entries of the map of paths whose event was bound
-- to no infra component, or to one of its type.
pub events_path-In :
    (bus : EventBus) (ty event path : String)
    → In (event, path) (events_path bus ty)
      ↔ (In (event, path) bus.bus_paths × (is_shown bus ty event ≡ true))
unfolding events_path
events_path-In bus ty event path =
    keep-In (λ (entry : String × String). is_shown bus ty entry.0) (event, path) bus.bus_paths
