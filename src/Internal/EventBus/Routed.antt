-- ===== src/Internal/EventBus/Routed.antt =====
-- internal/event_bus.go: what `building` puts into the map of paths.
use mathlib.Core.Option.{some-injective, none-ne-some}
use dt_go.Base.{
  ℕ, ◌+◌, false, not, Option, none, some, List, [], ◌∷◌, ◌≡◌, refl, sym, ap, ◌∙◌, subst, inl, inr,
  arith, In, String, str_eq, eq_iff, if-intro, Bool-cases, Option-cases, length,
}
use dt_go.Base.Maps.{Map, put, put-In}
use dt_go.Internal.EventBus.{
  Controller, Route, EventBus, match_event, dotted, route_event, route_methods, events_route,
  add_route, add_routes, building,
}

match_event-In :
    (m : Map String) (obj : String) {x : String}
    → match_event m obj ≡ x
    → str_eq x "" ≡ false
    → In (x, obj) m
unfolding match_event
match_event-In [] obj {x} e h = absurd (ground (arith, (eq_iff x "").1 (sym e), h))
match_event-In ((name, addr) ∷ m) obj e h = elim (Bool-cases (str_eq addr obj)) [
  | inl s ↦ inl (ap (λ y. (name, y)) ((eq_iff addr obj).0 s) ∙ ap (λ y. (y, obj)) (rw s at e))
  | inr s ↦ inr (match_event-In m obj (rw s at e) h)
]

-- The handler is a method of a controller to which the event is bound.
pub record IsMethod (bus : EventBus) (event handler : String) : Type 0 where
  pub controller : Controller
  pub method_name : String
  pub controller_in : In controller bus.controllers
  pub method_in : In method_name controller.methods
  pub handler_is : handler ≡ dotted controller.type_string method_name
  pub is_bound : In (event, dotted controller.type_name method_name) bus.events_addr

-- The path is that of a POST route to such a method.
pub record IsRouted (bus : EventBus) (routes : List Route) (event path : String) : Type 0 where
  pub route : Route
  pub route_in : In route routes
  pub is_post : route.method ≡ "POST"
  pub path_is : path ≡ route.path
  pub is_method : IsMethod bus event route.main_handler_name

-- Every entry of the map has the property.
abbrev pub Each : (String → String → Type 0) → Map String → Type 0
Each P m = (k v : String) → In (k, v) m → P k v

pub Each-put :
    (P : String → String → Type 0) (m : Map String) (k v : String)
    → Each P m
    → P k v
    → Each P (put m k v)
Each-put P m k v h new k' v' i = elim (put-In m k v (k', v') i) [
  | inl e ↦ subst (λ (p : String × String). P p.0 p.1) (sym e) new
  | inr old ↦ h k' v' old
]

module _ (order : ℕ → Map String → Map String)
    (order-In : (n : ℕ) (m : Map String) (p : String × String) → In p (order n m) → In p m)
    (bus : EventBus) where
  route_methods-Each :
      (n : ℕ) (c : Controller) (ms : List String) (routes : Map String)
      → In c bus.controllers
      → ((m : String) → In m ms → In m c.methods)
      → Each (IsMethod bus) routes
      → Each (IsMethod bus) (route_methods order n bus c ms routes)
  unfolding route_methods
  route_methods-Each n c [] routes i s h = h
  route_methods-Each n c (m ∷ ms) routes i s h =
      let addr = order n bus.events_addr in
      let full = dotted c.type_name m in
      route_methods-Each (n + 1) c ms
        (route_event order (match_event addr full) (dotted c.type_string m) routes) i
        (λ x j. s x (inr j))
        (if-intro (Each (IsMethod bus)) (str_eq (match_event addr full) "") (λ e. h)
          (λ e.
            Each-put (IsMethod bus) routes (match_event addr full) (dotted c.type_string m) h
              (record {
                controller = c;
                method_name = m;
                controller_in = i;
                method_in = s m (inl refl);
                handler_is = refl;
                is_bound = order-In n bus.events_addr _ (match_event-In addr full refl e);
              })))

  events_route-Each :
      (n : ℕ) (cs : List Controller) (routes : Map String)
      → ((c : Controller) → In c cs → In c bus.controllers)
      → Each (IsMethod bus) routes
      → Each (IsMethod bus) (events_route order n bus cs routes)
  unfolding events_route
  events_route-Each n [] routes s h = h
  events_route-Each n (c ∷ cs) routes s h =
      events_route-Each (n + length c.methods) cs (route_methods order n bus c c.methods routes)
        (λ x i. s x (inr i)) (route_methods-Each n c c.methods routes (s c (inl refl)) (λ m i. i) h)

  module _ (routes : List Route) where
    -- The map of paths, where the process goes on, has only paths of routes to bound methods.
    abbrev OkPaths : Option (Map String) → Type 0
    OkPaths none = Unit
    OkPaths (some ps) = Each (IsRouted bus routes) ps

    add_route-OkPaths :
        (r : Route) (events paths : Map String)
        → In r routes
        → Each (IsMethod bus) events
        → Each (IsRouted bus routes) paths
        → OkPaths (add_route order r events paths)
    unfolding add_route
    add_route-OkPaths r [] paths i m h = h
    add_route-OkPaths r ((event, handler) ∷ events) paths i m h =
        let later = λ (k : String) (v : String) (j : In (k, v) events). m k v (inr j) in
        if-intro OkPaths (not (str_eq r.main_handler_name handler))
          (λ e. add_route-OkPaths r events paths i later h)
          (λ e.
            if-intro OkPaths (not (str_eq r.method "POST")) (λ p. tt)
              (λ p. add_route-OkPaths r events (put paths event r.path) i later (
                Each-put (IsRouted bus routes) paths event r.path h (record {
                  route = r;
                  route_in = i;
                  is_post = (eq_iff r.method "POST").0 (ground (arith, p));
                  path_is = refl;
                  is_method =
                      subst (IsMethod bus event)
                        (sym ((eq_iff r.main_handler_name handler).0 (ground (arith, e))))
                        (m event handler (inl refl));
                }))))

    add_routes-OkPaths :
        (n : ℕ) (rs : List Route) (events paths : Map String)
        → ((r : Route) → In r rs → In r routes)
        → Each (IsMethod bus) events
        → Each (IsRouted bus routes) paths
        → OkPaths (add_routes order n rs events paths)
    unfolding add_routes
    add_routes-OkPaths n [] events paths s m h = h
    add_routes-OkPaths n (r ∷ rs) events paths s m h =
        elim (Option-cases (add_route order r (order n events) paths)) [
          | inl e ↦ rw e tt
          | inr (ps, e) ↦ rw e (
              add_routes-OkPaths (n + 1) rs events ps (λ x i. s x (inr i)) m
                (rw e at (
                  add_route-OkPaths r (order n events) paths (s r (inl refl))
                    (λ k v i. m k v (order-In n events (k, v) i)) h)))
        ]

  -- Where `building` does not end the process, on a bus that has no path yet, then every event it has a
  -- path for is bound to a method of one of the bus's controllers, and the path is that of a POST
  -- route whose main handler is that method; whatever the orders of iteration.
  pub building-IsRouted :
      (routes : List Route) (built : EventBus)
      → bus.bus_paths ≡ []
      → building order bus routes ≡ some built
      → Each (IsRouted bus routes) built.bus_paths
  unfolding building
  building-IsRouted routes built new e =
      elim (Option-cases
        (add_routes order 0 routes (events_route order 0 bus bus.controllers []) bus.bus_paths)) [
          | inl f ↦ absurd (none-ne-some _ (rw f at e))
          | inr (ps, f) ↦
              subst (λ (b : EventBus). Each (IsRouted bus routes) b.bus_paths)
                (some-injective _ _ (rw f at e))
                (rw f at (
                  add_routes-OkPaths routes 0 routes (events_route order 0 bus bus.controllers [])
                    bus.bus_paths (λ r i. i)
                    (events_route-Each 0 bus.controllers [] (λ c i. i) (λ k v i. absurd i))
                    (rw new (λ k v i. absurd i))))
        ]
