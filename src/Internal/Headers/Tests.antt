-- ===== src/Internal/Headers/Tests.antt =====
-- The theorems about shared headers at one worker and two requests.
use dt_go.Base.{
  ℕ, Bool, true, false, Option, none, some, List, [], ◌∷◌, String, ◌≡◌, refl, In, All, arith,
}
use dt_go.Internal.Headers.{
  Process, Worker, Infra, Request, Action, add_header, set_body, bus_set, begin_request,
  new_http_request, sent_header, act, act_all, bus_get, new_bus,
}
use dt_go.Internal.Headers.Shared.{added_header_leaks}

abbrev as_written : String → String
as_written key = key

abbrev empty_process : Process
empty_process = record { headers = λ a. []; next = 0 }

abbrev started : Worker × Process
started = new_bus (("X-Request-Id", "1") ∷ []) empty_process

abbrev infra : Infra
infra = record { worker = some started.0; single = false }

abbrev logger : Infra
logger = record { worker = none; single = true }

abbrev first : Request × Process
first = new_http_request infra "http://a/" none started.1

abbrev later : Process
later =
    act_all as_written (bus_set 0 "X-Request-Id" "2" ∷ [])
      (act as_written (add_header first.0 "Authorization" "secret") first.1)

added_header_leaks_example :
    In ("Authorization", "secret") (later.headers 0)
    × In
        ("Authorization", "secret")
        (sent_header
          (new_http_request infra "http://b/" none later).1
          (new_http_request infra "http://b/" none later).0)
added_header_leaks_example =
    added_header_leaks as_written infra infra 0 "http://a/" "http://b/" "Authorization" "secret"
      (bus_set 0 "X-Request-Id" "2" ∷ []) started.1 refl refl (omega arith) ((λ e. cc), tt)

-- The body of one request sets the content type that the bus passes on.
body_type :
    bus_get as_written 0 "Content-Type" (
      act as_written
        (set_body (new_http_request infra "http://a/" none started.1).0)
        (new_http_request infra "http://a/" none started.1).1)
    ≡ "application/x-www-form-urlencoded"
unfolding act new_http_request dt_go.Internal.Headers.get_first dt_go.Base.keep
body_type = refl
