-- ===== src/Internal/EventBus/Listened.antt =====
-- internal/app.go, `ListenEvent`: which events get a path on a bus that has only listened.
use mathlib.Core.Option.{some-injective, none-ne-some}
use dt_go.Base.{
  ℕ, ◌≢◌, Option, none, some, List, [], ◌∷◌, ◌≡◌, refl, ◌∙◌, subst, inl, inr, In, arith, String,
  Option-cases, ◌>>=◌,
}
use dt_go.Base.Maps.{Map, put}
use dt_go.Internal.EventBus.{
  Controller, Route, EventBus, add_event, listen_event, dotted, building, new_event_bus,
}
use dt_go.Internal.EventBus.Routed.{IsRouted, Each, Each-put, building-IsRouted}

-- The calls of `ListenEvent` of an application, in order: event name, method, infra component.
abbrev pub Listening : Type 0
Listening = String × String × Option String

unfoldable pub listen_all : EventBus → List Listening → Option EventBus
listen_all bus [] = some bus
listen_all bus ((event_name, obj_method, infra) ∷ ls) =
    listen_event bus event_name obj_method infra >>= (λ b. listen_all b ls)

-- Some call had the address as its event name and the key as its method.
abbrev pub IsSwapped : List Listening → String → String → Type 0
IsSwapped ls k v = (infra : Option String) × In (v, k, infra) ls

-- The bus without what `ListenEvent` changes of it.
abbrev Kept : EventBus → EventBus → Type 0
Kept a b = (b.bus_paths ≡ a.bus_paths) × (b.controllers ≡ a.controllers)

listen_event-adds :
    (bus b : EventBus) (event_name obj_method : String) (infra : Option String)
    → listen_event bus event_name obj_method infra ≡ some b
    → (b.events_addr ≡ put bus.events_addr obj_method event_name) × Kept bus b
unfolding add_event
listen_event-adds bus b event_name obj_method none e =
    (ground (arith, e), (ground (arith, e), ground (arith, e)))
listen_event-adds bus b event_name obj_method (some ty) e =
    (ground (arith, e), (ground (arith, e), ground (arith, e)))

listen_all-IsSwapped :
    (ls all : List Listening) (bus b : EventBus)
    → ((l : Listening) → In l ls → In l all)
    → Each (IsSwapped all) bus.events_addr
    → listen_all bus ls ≡ some b
    → Each (IsSwapped all) b.events_addr × Kept bus b
unfolding listen_all
listen_all-IsSwapped [] all bus b s h e =
    subst (λ (x : EventBus). Each (IsSwapped all) x.events_addr × Kept bus x)
      (some-injective bus b e) (h, (refl, refl))
listen_all-IsSwapped ((event_name, obj_method, infra) ∷ ls) all bus b s h e =
    elim (Option-cases (listen_event bus event_name obj_method infra)) [
      | inl f ↦ absurd (none-ne-some _ (rw f at e))
      | inr (c, f) ↦
          let (added, (paths, controllers)) =
            listen_event-adds bus c event_name obj_method infra f in
          let (swapped, (later, same)) =
            listen_all-IsSwapped ls all c b (λ l i. s l (inr i))
              (rw added (
                Each-put (IsSwapped all) bus.events_addr obj_method event_name h
                  (infra, s _ (inl refl))))
              (rw f at e) in
          (swapped, (later ∙ paths, same ∙ controllers))
    ]

empty_map : (m : Map String) → Each (λ k v. ⊥) m → m ≡ []
empty_map [] h = refl
empty_map ((k, v) ∷ m) h = absurd (h k v (inl refl))

module _ (order : ℕ → Map String → Map String)
    (order-In : (n : ℕ) (m : Map String) (p : String × String) → In p (order n m) → In p m) where
  -- On a bus that has only controllers and calls of `ListenEvent`, where `building` does not end the
  -- process: each name that has a path was given as the method of a call whose event name is
  -- the full name of a method of one of the controllers, and the path is that of a POST route to it.
  pub building-listened :
      (cs : List Controller) (ls : List Listening) (routes : List Route) (bus built : EventBus)
      → listen_all (record new_event_bus { controllers = cs }) ls ≡ some bus
      → building order bus routes ≡ some built
      → Each
          (λ k path.
            (t : IsRouted bus routes k path) × In t.is_method.controller cs
            × IsSwapped ls k (dotted t.is_method.controller.type_name t.is_method.method_name))
          built.bus_paths
  building-listened cs ls routes bus built l e k path i =
      let (swapped, (paths, controllers)) =
        listen_all-IsSwapped ls ls (record new_event_bus { controllers = cs }) bus (λ x j. j)
          (λ a b j. absurd j) l in
      let t = building-IsRouted order order-In bus routes built paths e k path i in
      (
        t,
        subst (In t.is_method.controller) controllers t.is_method.controller_in,
        swapped k _ t.is_method.is_bound,
      )

  -- If no event name that is listened to is the full name of a method of a controller, then no event
  -- gets a path, whatever the methods that are given with the names.
  pub listen_event_routes_nothing :
      (cs : List Controller) (ls : List Listening) (routes : List Route) (bus built : EventBus)
      → ((l : Listening) (c : Controller) (m : String)
          → In l ls
          → In c cs
          → In m c.methods
          → l.0 ≢ dotted c.type_name m)
      → listen_all (record new_event_bus { controllers = cs }) ls ≡ some bus
      → building order bus routes ≡ some built
      → built.bus_paths ≡ []
  listen_event_routes_nothing cs ls routes bus built named l e =
      empty_map built.bus_paths (λ k path i.
        let (t, c_in, (infra, s)) = building-listened cs ls routes bus built l e k path i in
        named (_, k, infra) t.is_method.controller t.is_method.method_name s c_in
          t.is_method.method_in refl)
