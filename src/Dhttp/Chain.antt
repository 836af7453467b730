-- ===== src/Dhttp/Chain.antt =====
-- infra/dhttp/http_request.go and middlewares.go: `Next` and `Stop`. A middleware is what it does with
-- the request it is given: it looks at it, changes what `GetRequest` and `GetRespone` give it, goes to the
-- next one, or stops the chain, as often as it likes and in any order.
pub mod Order
pub mod Stopped
pub mod Once
mod Tests
use dt_go.Base.{
  ℕ, zero, suc, ◌+◌, ◌-◌, Bool, true, false, Option, none, some, List, [], ◌∷◌, ◌++◌, ◌==◌, length,
  if◌then◌else◌, ◌>>=◌, String,
}
use dt_go.Base.Bytes.{Bytes}
use dt_go.Dhttp.Request.{Error, Header, Response, HttpRequest, stop, Net, do_request}

-- What a middleware can change: the `http.Request`, whose URL `prepare` sets anew, and the response.
pub record Exposed : Type 0 where
  pub method : String
  pub header : Header
  pub body : Option Bytes
  pub reply : Response

abbrev pub exposed : HttpRequest → Exposed
exposed req = record {
  method = req.method;
  header = req.request_header;
  body = req.request_body;
  reply = req.response;
}

abbrev pub with_exposed : Exposed → HttpRequest → HttpRequest
with_exposed x req = record req {
  method = x.method;
  request_header = x.header;
  request_body = x.body;
  response = x.reply;
}

pub data Handler : Type 0 where
  finish : Handler
  look : (HttpRequest → Handler) → Handler
  go_next go_stop : Handler → Handler
  go_stop_with : Error → Handler → Handler
  change : (Exposed → Exposed) → Handler → Handler

-- The middleware at a place of the list, with its number; the first one of the list has the number n.
unfoldable pub handler_at : ℕ → List Handler → ℕ → Option (ℕ × Handler)
handler_at n [] i = none
handler_at n (h ∷ hs) zero = some (n, h)
handler_at n (h ∷ hs) (suc i) = handler_at (suc n) hs i

abbrev pub enter : ℕ → HttpRequest → HttpRequest
enter n req = record req { next_index = req.next_index + 1; ran = req.ran ++ (n ∷ []) }

-- The body of a middleware, over what `Next` does; none is out of fuel.
module _ (next : HttpRequest → Option HttpRequest) where
  unfoldable pub run_handler : Handler → HttpRequest → Option HttpRequest
  unfolding stop
  run_handler finish req = some req
  run_handler (look f) req = run_handler (f req) req
  run_handler (go_stop h) req = run_handler h (stop req none)
  run_handler (go_stop_with e h) req = run_handler h (stop req (some e))
  run_handler (change f h) req = run_handler h (with_exposed (f (exposed req)) req)
  run_handler (go_next h) req = do r ← next req; run_handler h r

  -- The index moves on, and the middleware, whose number is noted, runs.
  abbrev pub run_entered : Option (ℕ × Handler) → HttpRequest → Option HttpRequest
  run_entered none req = none
  run_entered (some (n, h)) req = run_handler h (enter n req)

module _ (net : Net) (middlewares : List Handler) where
  -- The tests of `Next`, before the middleware it would enter.
  abbrev pub or_enter : HttpRequest → Option HttpRequest → Option HttpRequest
  or_enter req entered =
      if length middlewares == 0
      then some (do_request net req)
      else if req.stopped
      then some req
      else if req.next_index == length middlewares
      then some (do_request net req)
      else entered

  -- The fuel bounds how many middlewares are inside one another.
  unfoldable pub next : ℕ → HttpRequest → Option HttpRequest
  unfolding run_handler handler_at do_request
  next zero req = or_enter req none
  next (suc fuel) req =
      let h = handler_at 0 middlewares req.next_index in
      or_enter req (run_entered (next fuel) h req)
