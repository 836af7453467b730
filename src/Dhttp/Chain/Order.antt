-- ===== src/Dhttp/Chain/Order.antt =====
-- infra/dhttp/http_request.go: with as much fuel as there are middlewares `Next` returns, and each
-- middleware has run at most once, in the order in which they are installed.
use dt_go.Base.{
  ℕ, zero, suc, ◌+◌, ◌≤◌, ◌<◌, ◌≡◌, refl, sym, ap, ◌∙◌, Option, none, some, List, [], ◌∷◌, ◌++◌,
  ◌==◌, length, if-intro, arith,
}
use dt_go.Dhttp.Request.{Error, HttpRequest, stop, Net, do_request}
use dt_go.Dhttp.Chain.{
  Handler, finish, look, go_next, go_stop, go_stop_with, change, exposed, with_exposed, handler_at,
  run_handler, enter, or_enter, next,
}

abbrev pub count_up : ℕ → List ℕ
count_up zero = []
count_up (suc n) = count_up n ++ (n ∷ [])

handler_at-some :
    (n : ℕ) (hs : List Handler) (i : ℕ)
    → i < length hs
    → (h : Handler) × (handler_at n hs i ≡ some (n + i, h))
unfolding handler_at
handler_at-some n [] i l = absurd (omega (arith, l))
handler_at-some n (h ∷ hs) zero l = (h, ap (λ k. some (k, h)) (omega arith))
handler_at-some n (h ∷ hs) (suc i) l =
    let (g, e) = handler_at-some (suc n) hs i (omega (arith, l)) in
    (g, e ∙ ap (λ k. some (k, g)) (omega arith))

handler_at-first :
    (hs : List Handler) (i : ℕ) → i < length hs → (h : Handler) × (handler_at 0 hs i ≡ some (i, h))
handler_at-first hs i l =
    let (h, e) = handler_at-some 0 hs i l in (h, e ∙ ap (λ k. some (k, h)) (omega arith))

abbrev pub Untouched : HttpRequest → HttpRequest → Type 0
Untouched req r = (r.next_index ≡ req.next_index) × (r.ran ≡ req.ran) × (r.stopped ≡ req.stopped)

pub do_request-Untouched : (net : Net) (req : HttpRequest) → Untouched req (do_request net req)
unfolding do_request
do_request-Untouched net req = (ground arith, ground arith, ground arith)

module _ (net : Net) (middlewares : List Handler) where
  -- The middlewares before the index have run, each once and in order, and no other.
  pub record InOrder (req : HttpRequest) : Type 0 where
    pub index_le : req.next_index ≤ length middlewares
    pub in_order : req.ran ≡ count_up req.next_index

  -- The call returns a request whose middlewares ran in order.
  pub record Returns (req : HttpRequest) (o : Option HttpRequest) : Type 0 where
    pub result : HttpRequest
    pub returned : o ≡ some result
    pub order : InOrder result
    pub index_grows : req.next_index ≤ result.next_index

  Returns-at : (req r : HttpRequest) → InOrder req → Untouched req r → Returns req (some r)
  Returns-at req r g (i, n, s) = record {
    result = r;
    returned = refl;
    order = record {
      index_le = omega (arith, i, g.index_le);
      in_order = n ∙ g.in_order ∙ ap count_up (sym i);
    };
    index_grows = omega (arith, i);
  }

  Returns-after :
      (req r : HttpRequest) {o : Option HttpRequest}
      → req.next_index ≤ r.next_index
      → Returns r o
      → Returns req o
  Returns-after req r l t = record {
    result = t.result;
    returned = t.returned;
    order = t.order;
    index_grows = omega (arith, l, t.index_grows);
  }

  stop-InOrder : (req : HttpRequest) (e : Option Error) → InOrder req → InOrder (stop req e)
  unfolding stop
  stop-InOrder req e g = record { index_le = g.index_le; in_order = g.in_order }

  module _ (goes_on : HttpRequest → Option HttpRequest) (fuel : ℕ)
      (goes_on-Returns : (req : HttpRequest)
        → InOrder req
        → length middlewares ≤ fuel + req.next_index
        → Returns req (goes_on req)) where
    run_handler-Returns :
        (h : Handler) (req : HttpRequest)
        → InOrder req
        → length middlewares ≤ fuel + req.next_index
        → Returns req (run_handler goes_on h req)
    unfolding run_handler stop
    run_handler-Returns finish req g l = Returns-at req req g (refl, refl, refl)
    run_handler-Returns (look f) req g l = run_handler-Returns (f req) req g l
    run_handler-Returns (go_stop h) req g l =
        Returns-after req (stop req none) (omega arith)
          (run_handler-Returns h (stop req none) (stop-InOrder req none g) l)
    run_handler-Returns (go_stop_with e h) req g l =
        Returns-after req (stop req (some e)) (omega arith)
          (run_handler-Returns h (stop req (some e)) (stop-InOrder req (some e) g) l)
    run_handler-Returns (change f h) req g l =
        let changed = with_exposed (f (exposed req)) req in
        Returns-after req changed (omega arith) (
          run_handler-Returns h changed (record { index_le = g.index_le; in_order = g.in_order }) l)
    run_handler-Returns (go_next h) req g l =
        let first = goes_on-Returns req g l in
        let rest =
          run_handler-Returns h first.result first.order (omega (arith, l, first.index_grows)) in
        rw first.returned (Returns-after req first.result first.index_grows rest)

  enter-InOrder :
      (req : HttpRequest)
      → InOrder req
      → req.next_index < length middlewares
      → InOrder (enter req.next_index req)
  enter-InOrder req g l = record {
    index_le = omega (arith, l);
    in_order =
        ap (λ xs. xs ++ (req.next_index ∷ [])) g.in_order ∙ ap count_up (suc_is req.next_index);
  }
    where
      suc_is : (n : ℕ) → suc n ≡ n + 1
      suc_is n = omega arith

  or_enter-Returns :
      (req : HttpRequest) (entered : Option HttpRequest)
      → InOrder req
      → (req.next_index < length middlewares → Returns req entered)
      → Returns req (or_enter net middlewares req entered)
  or_enter-Returns req entered g f =
      let done = Returns-at req (do_request net req) g (do_request-Untouched net req) in
      if-intro (Returns req) (length middlewares == 0) (λ e. done)
        (λ e.
          if-intro (Returns req) req.stopped (λ e. Returns-at req req g (refl, refl, refl))
            (λ e.
              if-intro (Returns req) (req.next_index == length middlewares) (λ e. done)
                (λ e. f (ground (arith, e, g.index_le)))))

  -- If the middlewares before the index of a request have run, each once and in order, and no other,
  -- and the fuel is at least the number of those that are left, then `Next` returns, and in the
  -- request it returns, again, the middlewares before the index have run, each once and in order, and no
  -- other, whatever the middlewares do.
  pub next-Returns :
      (fuel : ℕ) (req : HttpRequest)
      → InOrder req
      → length middlewares ≤ fuel + req.next_index
      → Returns req (next net middlewares fuel req)
  unfolding next
  next-Returns zero req g l =
      or_enter-Returns req none g (λ below. absurd (omega (arith, l, below)))
  next-Returns (suc fuel) req g l = or_enter-Returns req _ g (λ below.
      let (h, at) = handler_at-first middlewares req.next_index below in
      rw at (
        Returns-after req (enter req.next_index req) (omega arith) (
          run_handler-Returns (next net middlewares fuel) fuel (next-Returns fuel) h
            (enter req.next_index req) (enter-InOrder req g below) (omega (arith, l)))))
