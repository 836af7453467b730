-- ===== src/Dhttp/Chain/Stopped.antt =====
-- infra/dhttp/http_request.go: after `Stop` no request goes out and no further middleware runs.
use mathlib.Core.Option.{some-injective}
use dt_go.Base.{ℕ, zero, suc, ◌≡◌, refl, subst, true, false, none, some, List, length, ◌==◌}
use dt_go.Dhttp.Request.{HttpRequest, stop, Net}
use dt_go.Dhttp.Chain.{
  Handler, finish, look, go_next, go_stop, go_stop_with, change, exposed, with_exposed, run_handler,
  next,
}

-- Nothing went out between the two, and no middleware was entered.
abbrev pub Quiet : HttpRequest → HttpRequest → Type 0
Quiet req r = (r.stopped ≡ true) × (r.sent ≡ req.sent) × (r.ran ≡ req.ran)

module _ (net : Net) (middlewares : List Handler)
    (some_middleware : (length middlewares == 0) ≡ false) where
  next-stopped :
      (fuel : ℕ) (req : HttpRequest) → req.stopped ≡ true → next net middlewares fuel req ≡ some req
  unfolding next
  next-stopped zero req s = rw (some_middleware, s)
  next-stopped (suc fuel) req s = rw (some_middleware, s)

  -- Where there are middlewares and one of them has stopped the request, the rest of its body and
  -- whatever calls of `Next` it makes leave the request stopped, send nothing and enter no middleware.
  pub run_handler-Quiet :
      (fuel : ℕ) (h : Handler) (req r : HttpRequest)
      → req.stopped ≡ true
      → run_handler (next net middlewares fuel) h req ≡ some r
      → Quiet req r
  unfolding run_handler stop
  run_handler-Quiet fuel finish req r s e =
      subst (Quiet req) (some-injective req r e) (s, refl, refl)
  run_handler-Quiet fuel (look f) req r s e = run_handler-Quiet fuel (f req) req r s e
  run_handler-Quiet fuel (go_stop h) req r s e = run_handler-Quiet fuel h (stop req none) r refl e
  run_handler-Quiet fuel (go_stop_with x h) req r s e =
      run_handler-Quiet fuel h (stop req (some x)) r refl e
  run_handler-Quiet fuel (change f h) req r s e =
      run_handler-Quiet fuel h (with_exposed (f (exposed req)) req) r s e
  run_handler-Quiet fuel (go_next h) req r s e =
      run_handler-Quiet fuel h req r s (rw (next-stopped fuel req s) at e)
