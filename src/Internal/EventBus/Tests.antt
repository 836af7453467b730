-- ===== src/Internal/EventBus/Tests.antt =====
-- The theorems about the event bus at a controller with one method.
use dt_go.Base.{
  ℕ, none, some, List, [], ◌∷◌, ◌≡◌, ◌≢◌, refl, subst, eq_iff, inl, inr, In, String, arith,
}
use dt_go.Base.Maps.{Map}
use dt_go.Internal.EventBus.{
  Controller, Route, EventBus, new_event_bus, add_event, building, dotted,
}
use dt_go.Internal.EventBus.Routed.{IsRouted, Each, building-IsRouted}
use dt_go.Internal.EventBus.Listened.{Listening, listen_all, listen_event_routes_nothing}

abbrev goods : Controller
goods = record { type_name = "Goods"; type_string = "controller.Goods"; methods = "PostBuy" ∷ [] }

abbrev buy : Route
buy = record {
  main_handler_name = "controller.Goods.PostBuy";
  method = "POST";
  path = "/goods/buy";
}

abbrev in_order : ℕ → Map String → Map String
in_order n m = m

abbrev bus : EventBus
bus = record new_event_bus { controllers = goods ∷ [] }

-- The event is registered as `addEvent` has its arguments.
abbrev bound_bus : EventBus
bound_bus = record bus { events_addr = ("goods_sold", "Goods.PostBuy") ∷ [] }

abbrev routed_bus : EventBus
routed_bus = record bound_bus { bus_paths = ("goods_sold", "/goods/buy") ∷ [] }

add_event_binds : add_event bus "Goods.PostBuy" "goods_sold" none ≡ some bound_bus
unfolding add_event
add_event_binds = refl

add_event_twice : add_event bound_bus "Goods.PostBuy" "goods_sold" none ≡ none
unfolding add_event
add_event_twice = refl

building_routes : building in_order bound_bus (buy ∷ []) ≡ some routed_bus
unfolding building
building_routes = refl

building_needs_post : building in_order bound_bus (record buy { method = "GET" } ∷ []) ≡ none
unfolding building
building_needs_post = refl

building-IsRouted_example : Each (IsRouted bound_bus (buy ∷ [])) routed_bus.bus_paths
building-IsRouted_example =
    building-IsRouted in_order (λ n m p i. i) bound_bus (buy ∷ []) routed_bus refl building_routes

-- The README's way to listen: the event's name, then the method.
abbrev listening : List Listening
listening = ("goods_sold", "Goods.PostBuy", none) ∷ []

abbrev swapped_bus : EventBus
swapped_bus = record bus { events_addr = ("Goods.PostBuy", "goods_sold") ∷ [] }

listens : listen_all bus listening ≡ some swapped_bus
unfolding listen_all add_event
listens = refl

builds_nothing : building in_order swapped_bus (buy ∷ []) ≡ some swapped_bus
unfolding building
builds_nothing = refl

only_method : (m : String) → In m ("PostBuy" ∷ []) → "goods_sold" ≢ dotted "Goods" m
only_method m (inl e) =
    subst (λ x. "goods_sold" ≢ dotted "Goods" x) e
      (λ q. absurd (ground (arith, (eq_iff "goods_sold" "Goods.PostBuy").1 q)))
only_method m (inr x) = absurd x

not_a_method :
    (l : Listening) (c : Controller) (m : String)
    → In l listening
    → In c (goods ∷ [])
    → In m c.methods
    → l.0 ≢ dotted c.type_name m
not_a_method l c m (inl a) (inl b) =
    subst (λ (x : Controller). In m x.methods → l.0 ≢ dotted x.type_name m) b
      (subst (λ (y : Listening). In m goods.methods → y.0 ≢ dotted goods.type_name m) a
        (only_method m))
not_a_method l c m (inl a) (inr x) = absurd x
not_a_method l c m (inr x) i = absurd x

listen_event_routes_nothing_example : swapped_bus.bus_paths ≡ []
listen_event_routes_nothing_example =
    listen_event_routes_nothing in_order (λ n m p i. i) (goods ∷ []) listening (buy ∷ [])
      swapped_bus swapped_bus not_a_method listens builds_nothing
