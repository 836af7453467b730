-- ===== src/Internal/EventBus.antt =====
-- internal/event_bus.go, with `ListenEvent` and `EventsPath` of internal/app.go. A map is a list of
-- entries; the order in which the n-th range goes over one is an argument. A type is its name. A call of
-- `Fatalf`, which ends the process, is none.
pub mod Routed
pub mod Listened
pub mod Visible
mod Tests
use Prim.Native.String.{◌++◌ as concat}
use dt_go.Base.{
  ℕ, zero, suc, ◌+◌, Bool, true, false, not, ◌&&◌, Option, none, some, List, [], ◌∷◌, ◌++◌, String,
  str_eq, if◌then◌else◌, ◌>>=◌, length, keep,
}
use dt_go.Base.Maps.{Map, find, put}

-- What reflection tells of a controller: `t.Elem().Name()`, `t.Elem().String()` and its methods.
pub record Controller : Type 0 where
  pub type_name : String
  pub type_string : String
  pub methods : List String

-- A route of iris.
pub record Route : Type 0 where
  pub main_handler_name : String
  pub method : String
  pub path : String

pub record EventBus : Type 0 where
  pub bus_paths : Map String
  pub events_addr : Map String
  pub controllers : List Controller
  pub events_infra_com : Map String

abbrev pub new_event_bus : EventBus
new_event_bus = record { bus_paths = []; events_addr = []; controllers = []; events_infra_com = [] }

abbrev pub add_controller : EventBus → Controller → EventBus
add_controller bus c = record bus { controllers = bus.controllers ++ (c ∷ []) }

abbrev set_infra_com : EventBus → String → Option String → EventBus
set_infra_com bus event_name none = bus
set_infra_com bus event_name (some ty) = record bus {
  events_infra_com = put bus.events_infra_com event_name ty;
}

unfoldable pub add_event : EventBus → String → String → Option String → Option EventBus
unfolding find put
add_event bus object_method event_name infra_com = elim (find bus.events_addr event_name) [
  | some bound ↦ none
  | none ↦ some (
      set_infra_com (record bus { events_addr = put bus.events_addr event_name object_method })
        event_name infra_com)
]

-- `Application.ListenEvent`, which passes its arguments on in the order in which it has them.
abbrev pub listen_event : EventBus → String → String → Option String → Option EventBus
listen_event bus event_name obj_method infra = add_event bus event_name obj_method infra

-- The entry of `k` is shown to the type: the event is bound to no infra component or to this one.
abbrev pub is_shown : EventBus → String → String → Bool
is_shown bus ty k = elim (find bus.events_infra_com k) [ none ↦ true | some t ↦ str_eq t ty ]

unfoldable pub events_path : EventBus → String → Map String
unfolding find
events_path bus ty = keep (λ entry. is_shown bus ty entry.0) bus.bus_paths

-- `match` over the entries in the order of iteration; no event is the empty name.
unfoldable pub match_event : Map String → String → String
match_event [] object_method = ""
match_event ((name, addr) ∷ m) object_method =
    if str_eq addr object_method then name else match_event m object_method

abbrev pub dotted : String → String → String
dotted a b = concat a (concat "." b)

module _ (order : ℕ → Map String → Map String) where
  -- The loops over the controllers and their methods: the full method name of each event.
  abbrev pub route_event : String → String → Map String → Map String
  route_event event_name handler routes =
      if str_eq event_name "" then routes else put routes event_name handler

  unfoldable pub route_methods : ℕ → EventBus → Controller → List String → Map String → Map String
  unfolding match_event put
  route_methods n bus c [] routes = routes
  route_methods n bus c (m ∷ ms) routes =
      let event_name = match_event (order n bus.events_addr) (dotted c.type_name m) in
      route_methods (n + 1) bus c ms (route_event event_name (dotted c.type_string m) routes)

  unfoldable pub events_route : ℕ → EventBus → List Controller → Map String → Map String
  unfolding route_methods
  events_route n bus [] routes = routes
  events_route n bus (c ∷ cs) routes =
      events_route (n + length c.methods) bus cs (route_methods n bus c c.methods routes)

  -- One route against the events in the order of iteration.
  unfoldable pub add_route : Route → Map String → Map String → Option (Map String)
  unfolding put
  add_route r [] paths = some paths
  add_route r ((event_name, handler) ∷ m) paths =
      if not (str_eq r.main_handler_name handler)
      then add_route r m paths
      else if not (str_eq r.method "POST")
      then none
      else add_route r m (put paths event_name r.path)

  unfoldable pub add_routes : ℕ → List Route → Map String → Map String → Option (Map String)
  unfolding add_route
  add_routes n [] events paths = some paths
  add_routes n (r ∷ rs) events paths =
      add_route r (order n events) paths >>= (λ ps. add_routes (n + 1) rs events ps)

  unfoldable pub building : EventBus → List Route → Option EventBus
  unfolding events_route add_routes
  building bus routes =
      add_routes 0 routes (events_route 0 bus bus.controllers []) bus.bus_paths
      >>= (λ ps. some (record bus { bus_paths = ps }))
