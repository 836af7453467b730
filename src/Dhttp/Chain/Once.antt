-- ===== src/Dhttp/Chain/Once.antt =====
-- infra/dhttp/http_request.go: a chain of middlewares that call `Next` at most once sends at most one
-- request.
use mathlib.Core.Option.{some-injective, none-ne-some}
use dt_go.Base.{
  ℕ, zero, suc, ◌+◌, ◌≤◌, ◌≡◌, subst, Option, none, some, List, [], ◌∷◌, length, length-append,
  ◌==◌, if-intro, arith, Option-cases, inl, inr, All,
}
use dt_go.Dhttp.Request.{HttpRequest, stop, Net, do_request, outgoing}
use dt_go.Dhttp.Chain.{
  Handler, finish, look, go_next, go_stop, go_stop_with, change, exposed, with_exposed, handler_at,
  run_handler, enter, or_enter, next,
}

-- The middleware calls `Next` at most n times, whatever it sees of the request.
abbrev pub CallsNext : ℕ → Handler → Type 0
CallsNext n finish = Unit
CallsNext n (look f) = (req : HttpRequest) → CallsNext n (f req)
CallsNext n (go_stop h) = CallsNext n h
CallsNext n (go_stop_with e h) = CallsNext n h
CallsNext n (change f h) = CallsNext n h
CallsNext zero (go_next h) = ⊥
CallsNext (suc n) (go_next h) = CallsNext n h

-- If the call returns, it has sent at most n requests.
abbrev pub Sends : ℕ → HttpRequest → Option HttpRequest → Type 0
Sends n req none = Unit
Sends n req (some r) = length r.sent ≤ length req.sent + n

do_request-Sends : (net : Net) (req : HttpRequest) → Sends 1 req (some (do_request net req))
unfolding do_request
do_request-Sends net req = ground (arith, length-append req.sent (outgoing net req ∷ []))

handler_at-CallsNext :
    (n base : ℕ) (hs : List Handler) (i : ℕ) {at : ℕ × Handler}
    → All (CallsNext n) hs
    → handler_at base hs i ≡ some at
    → CallsNext n at.1
unfolding handler_at
handler_at-CallsNext n base [] i a e = absurd (none-ne-some _ e)
handler_at-CallsNext n base (h ∷ hs) zero a e =
    subst (λ (x : ℕ × Handler). CallsNext n x.1) (some-injective _ _ e) a.0
handler_at-CallsNext n base (h ∷ hs) (suc i) a e = handler_at-CallsNext n (suc base) hs i a.1 e

module _ (goes_on : HttpRequest → Option HttpRequest) where
  run_handler-silent :
      (h : Handler) (req : HttpRequest) → CallsNext 0 h → Sends 0 req (run_handler goes_on h req)
  unfolding run_handler stop
  run_handler-silent finish req c = omega arith
  run_handler-silent (look f) req c = run_handler-silent (f req) req (c req)
  run_handler-silent (go_stop h) req c = run_handler-silent h (stop req none) c
  run_handler-silent (go_stop_with e h) req c = run_handler-silent h (stop req (some e)) c
  run_handler-silent (change f h) req c =
      run_handler-silent h (with_exposed (f (exposed req)) req) c
  run_handler-silent (go_next h) req c = absurd c

  -- What is sent before and after adds up.
  Sends-after :
      (m n : ℕ) (req r : HttpRequest) (o : Option HttpRequest)
      → length r.sent ≤ length req.sent + m
      → Sends n r o
      → Sends (m + n) req o
  Sends-after m n req r none l s = tt
  Sends-after m n req r (some x) l s = omega (arith, l, s)

  run_handler-Sends :
      (h : Handler) (req : HttpRequest)
      → ((req : HttpRequest) → Sends 1 req (goes_on req))
      → CallsNext 1 h
      → Sends 1 req (run_handler goes_on h req)
  unfolding run_handler stop
  run_handler-Sends finish req g c = omega arith
  run_handler-Sends (look f) req g c = run_handler-Sends (f req) req g (c req)
  run_handler-Sends (go_stop h) req g c = run_handler-Sends h (stop req none) g c
  run_handler-Sends (go_stop_with e h) req g c = run_handler-Sends h (stop req (some e)) g c
  run_handler-Sends (change f h) req g c =
      run_handler-Sends h (with_exposed (f (exposed req)) req) g c
  run_handler-Sends (go_next h) req g c = elim (Option-cases (goes_on req)) [
    | inl e ↦ rw e tt
    | inr (r, e) ↦ rw e (
        Sends-after 1 0 req r (run_handler goes_on h r) (rw e at (g req))
          (run_handler-silent h r c))
  ]

module _ (net : Net) (middlewares : List Handler) where
  or_enter-Sends :
      (req : HttpRequest) (entered : Option HttpRequest)
      → Sends 1 req entered
      → Sends 1 req (or_enter net middlewares req entered)
  or_enter-Sends req entered f =
      let done = do_request-Sends net req in
      if-intro (Sends 1 req) (length middlewares == 0) (λ e. done)
        (λ e.
          if-intro (Sends 1 req) req.stopped (λ e. omega arith)
            (λ e.
              if-intro (Sends 1 req) (req.next_index == length middlewares) (λ e. done) (λ e. f)))

  -- If no middleware calls `Next` more than once, then a `Next` that returns has sent at most one
  -- request, whatever the request it is called on.
  pub next-Sends :
      (fuel : ℕ) (req : HttpRequest)
      → All (CallsNext 1) middlewares
      → Sends 1 req (next net middlewares fuel req)
  unfolding next
  next-Sends zero req c = or_enter-Sends req none tt
  next-Sends (suc fuel) req c =
      or_enter-Sends req _ (elim (Option-cases (handler_at 0 middlewares req.next_index)) [
        | inl e ↦ rw e tt
        | inr ((k, h), e) ↦ rw e (
            run_handler-Sends (next net middlewares fuel) h (enter k req) (λ r. next-Sends fuel r c)
              (handler_at-CallsNext 1 0 middlewares req.next_index c e))
      ])
