-- ===== src/Middleware/BusFilter/Tests.antt =====
-- The theorem about middleware/bus.go at a bus of three keys.
use dt_go.Base.{[], ◌∷◌, ◌≡◌, refl, inl, inr, List, String, keep}
use dt_go.Internal.Headers.{Header, Process}
use dt_go.Middleware.BusFilter.{is_passed, bus_filter}
use dt_go.Middleware.BusFilter.Passed.{bus_filter-keep}

abbrev bus : Header
bus =
    ("X-Request-Id", "7")
    ∷ ("Cookie", "a=b")
    ∷ ("X-Language", "en-US")
    ∷ ("Accept", "*/*")
    ∷ ("Cookie", "c=d")
    ∷ []

abbrev one_worker : Process
one_worker = record { headers = λ a. bus; next = 1 }

abbrev range : List String
range = "Accept" ∷ "X-Language" ∷ "Cookie" ∷ "X-Request-Id" ∷ []

bus_filter-keep_example :
    (bus_filter (λ key. key) 0 range one_worker).headers 0
    ≡ keep (λ (e : String × String). is_passed e.0) bus
bus_filter-keep_example =
    bus_filter-keep (λ key. key) 0 range one_worker (refl, (refl, (refl, (refl, tt))))
      (
        inr (inr (inr (inl refl))),
        (inr (inr (inl refl)), (inr (inl refl), (inl refl, (inr (inr (inl refl)), tt)))),
      )

kept :
    keep (λ (e : String × String). is_passed e.0) bus
    ≡ ("X-Request-Id", "7") ∷ ("X-Language", "en-US") ∷ []
unfolding keep is_passed
kept = refl
