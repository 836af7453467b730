-- ===== src/Internal/Headers/Apart.antt =====
-- internal/infra.go: a request that does not take the bus has a header of its own, and a component that
-- is single never takes it.
use dt_go.Base.{
  ℕ, ◌<◌, Bool, true, false, none, some, List, [], ◌∷◌, String, ◌≡◌, refl, sym, subst, ap, ◌∙◌, All,
  ==-same, ==-lt,
}
use dt_go.Internal.Headers.{
  Process, Worker, Infra, Request, begin_request, new_request, new_http_request, sent_header, act,
  act_all, Action, address,
}

-- The requests that a component serves, in order.
abbrev pub serve_all : List Worker → Infra → Infra
serve_all [] infra = infra
serve_all (w ∷ ws) infra = serve_all ws (begin_request infra w)

single_keeps : (ws : List Worker) (infra : Infra) → infra.single ≡ true → serve_all ws infra ≡ infra
unfolding begin_request
single_keeps [] infra s = refl
single_keeps (w ∷ ws) infra s = ap (serve_all ws) (rw s refl) ∙ single_keeps ws infra s

-- Without a worker a request has what it was made with.
plain_request :
    (infra : Infra) (url : String) (transfer_bus : Bool) (p : Process)
    → infra.worker ≡ none
    → new_http_request infra url (some transfer_bus) p ≡ new_request url p
unfolding new_http_request
plain_request infra url true p e = rw e refl
plain_request infra url false p e = refl

module _ (canonical : String → String) where
  apart_act :
      (a : Action canonical) (p : Process) (n : ℕ)
      → address canonical a < n
      → (act canonical a p).headers n ≡ p.headers n
  unfolding act
  apart_act a p n l = rw (==-lt (address canonical a) n l) refl

  act_all-apart :
      (rest : List (Action canonical)) (p : Process) (n : ℕ)
      → All (λ a. address canonical a < n) rest
      → (act_all canonical rest p).headers n ≡ p.headers n
  unfolding act_all
  act_all-apart [] p n h = refl
  act_all-apart (a ∷ rest) p n h =
      act_all-apart rest (act canonical a p) n h.1 ∙ apart_act a p n h.0

  -- A request that a single component makes, after any number of requests it has served, starts with an
  -- empty header, whether it was told to take the bus or not, and nothing that is done to the requests and
  -- buses that were there before changes it.
  pub request_apart :
      (infra : Infra) (ws : List Worker) (url : String) (transfer_bus : Bool) (p : Process)
      (rest : List (Action canonical))
      → infra.worker ≡ none
      → infra.single ≡ true
      → All (λ a. address canonical a < p.next) rest
      → let (r, q) = new_http_request (serve_all ws infra) url (some transfer_bus) p in
        sent_header (act_all canonical rest q) r ≡ []
  request_apart infra ws url transfer_bus p rest no_worker single h =
      let same =
        plain_request (serve_all ws infra) url transfer_bus p
          (ap (λ (i : Infra). i.worker) (single_keeps ws infra single) ∙ no_worker) in
      subst (λ (x : Request × Process). sent_header (act_all canonical rest x.1) x.0 ≡ [])
        (sym same) (act_all-apart rest (new_request url p).1 p.next h ∙ rw (==-same p.next) refl)
