-- ===== src/Internal/Headers/Shared.antt =====
-- internal/infra.go: all requests that a component makes for one worker have one header, the bus's.
use dt_go.Base.{
  ℕ, ◌==◌, ==_iff, ◌≢◌, not, str_eq, eq_iff, keep-In, Bool-cases, inr, All, In-append_left, ◌<◌,
  none, some, List, [], ◌∷◌, String, ◌≡◌, refl, sym, subst, ap, ◌∙◌, inl, In, In-append_right,
  ==-same, arith,
}
use dt_go.Internal.Headers.{
  Process, Worker, Infra, Request, new_http_request, sent_header, act, act_all, Action, add_header,
  set_body, set_json_body, bus_add, bus_set, bus_del, Header, header_add, header_del, header_set,
  change, address,
}

module _ (canonical : String → String) where
  act-next : (a : Action canonical) (p : Process) → (act canonical a p).next ≡ p.next
  unfolding act
  act-next a p = refl

  pub act_all-next :
      (rest : List (Action canonical)) (p : Process) → (act_all canonical rest p).next ≡ p.next
  unfolding act_all
  act_all-next [] p = refl
  act_all-next (a ∷ rest) p = act_all-next rest (act canonical a p) ∙ act-next a p

  added_header :
      (r : Request) (key value : String) (p : Process)
      → In (canonical key, value) (sent_header (act canonical (add_header r key value) p) r)
  unfolding act
  added_header r key value p = rw (==-same r.header_at) (
      In-append_right (canonical key, value) (p.headers r.header_at) ((canonical key, value) ∷ [])
        (inl refl))

  module _ (infra : Infra) (w : Worker) (serves : infra.worker ≡ some w) where
    -- The header of a new request is that of the bus.
    new_http_request-shares :
        (url : String) (p : Process)
        → w < p.next
        → let (r, q) = new_http_request infra url none p in
          (r.header_at ≡ w) × (q.headers w ≡ p.headers w) × (w < q.next)
    unfolding new_http_request
    new_http_request-shares url p l = rw serves (refl, ground (arith, l), omega (arith, l))

    -- A second request that a component makes for the worker starts with the whole header that the
    -- first one has by then, whatever was done to requests and buses between the two; so each
    -- header that was added to the first one goes out with the second one too.
    pub second_request_inherits :
        (url₁ url₂ : String) (rest : List (Action canonical)) (p : Process)
        → w < p.next
        → let (r₁, p₁) = new_http_request infra url₁ none p in
          let p₂ = act_all canonical rest p₁ in
          let (r₂, p₃) = new_http_request infra url₂ none p₂ in
          sent_header p₃ r₂ ≡ sent_header p₂ r₁
    second_request_inherits url₁ url₂ rest p l =
        let (r₁, p₁) = new_http_request infra url₁ none p in
        let p₂ = act_all canonical rest p₁ in
        let (r₂, p₃) = new_http_request infra url₂ none p₂ in
        let (at₁, _, l₁) = new_http_request-shares url₁ p l in
        let (at₂, same, _) =
          new_http_request-shares url₂ p₂ (subst (λ n. w < n) (sym (act_all-next rest p₁)) l₁) in
        ap p₃.headers at₂ ∙ same ∙ ap p₂.headers (sym at₁)

  -- The action neither sets nor deletes the key.
  abbrev pub Spares : String → Action canonical → Type 0
  Spares key (add_header req k v) = Unit
  Spares key (bus_add w k v) = Unit
  Spares key (set_body req) = canonical key ≢ canonical "Content-Type"
  Spares key (set_json_body req) = canonical key ≢ canonical "Content-Type"
  Spares key (bus_set w k v) = canonical key ≢ canonical k
  Spares key (bus_del w k) = canonical key ≢ canonical k

  header_add-keeps :
      (key value k v : String) (h : Header)
      → In (canonical key, value) h
      → In (canonical key, value) (header_add canonical k v h)
  header_add-keeps key value k v h i =
      In-append_left (canonical key, value) h ((canonical k, v) ∷ []) i

  header_del-keeps :
      (key value k : String) (h : Header)
      → canonical key ≢ canonical k
      → In (canonical key, value) h
      → In (canonical key, value) (header_del canonical k h)
  unfolding header_del
  header_del-keeps key value k h apart i =
      (keep-In (λ (entry : String × String). not (str_eq entry.0 (canonical k)))
          (canonical key, value) h).1
        (
          i,
          elim (Bool-cases (str_eq (canonical key) (canonical k))) [
            | inl e ↦ absurd (apart ((eq_iff (canonical key) (canonical k)).0 e))
            | inr e ↦ rw e refl
          ],
        )

  change-keeps :
      (key value : String) (a : Action canonical) (h : Header)
      → Spares key a
      → In (canonical key, value) h
      → In (canonical key, value) (change canonical a h)
  unfolding header_set
  change-keeps key value (add_header req k v) h s i = header_add-keeps key value k v h i
  change-keeps key value (bus_add w k v) h s i = header_add-keeps key value k v h i
  change-keeps key value (bus_del w k) h s i = header_del-keeps key value k h s i
  change-keeps key value (bus_set w k v) h s i =
      header_add-keeps key value k v (header_del canonical k h) (header_del-keeps key value k h s i)
  change-keeps key value (set_body req) h s i =
      header_add-keeps key value "Content-Type" _ (header_del canonical "Content-Type" h)
        (header_del-keeps key value "Content-Type" h s i)
  change-keeps key value (set_json_body req) h s i =
      header_add-keeps key value "Content-Type" _ (header_del canonical "Content-Type" h)
        (header_del-keeps key value "Content-Type" h s i)

  act_all-keeps :
      (key value : String) (n : ℕ) (rest : List (Action canonical)) (p : Process)
      → All (Spares key) rest
      → In (canonical key, value) (p.headers n)
      → In (canonical key, value) ((act_all canonical rest p).headers n)
  unfolding act_all act
  act_all-keeps key value n [] p s i = i
  act_all-keeps key value n (a ∷ rest) p s i =
      act_all-keeps key value n rest (act canonical a p) s.1
        (elim (Bool-cases (address canonical a == n)) [
          | inl e ↦
              let same = (==_iff (address canonical a) n).0 e in
              rw e (
                change-keeps key value a (p.headers (address canonical a)) s.0
                  (subst (λ k. In (canonical key, value) (p.headers k)) (sym same) i))
          | inr e ↦ rw e i
        ])

  -- What is added to the header of a request that a component makes for a worker and its bus is on that
  -- bus, and in every request that any component makes for the worker with the bus later, as long as
  -- nothing that is done to requests and buses meanwhile sets or deletes its key.
  pub added_header_leaks :
      (infra infra' : Infra) (w : Worker) (url₁ url₂ key value : String)
      (rest : List (Action canonical)) (p : Process)
      → infra.worker ≡ some w
      → infra'.worker ≡ some w
      → w < p.next
      → All (Spares key) rest
      → let (r₁, p₁) = new_http_request infra url₁ none p in
        let p₂ = act_all canonical rest (act canonical (add_header r₁ key value) p₁) in
        let (r₂, p₃) = new_http_request infra' url₂ none p₂ in
        In (canonical key, value) (p₂.headers w) × In (canonical key, value) (sent_header p₃ r₂)
  added_header_leaks infra infra' w url₁ url₂ key value rest p serves serves' l spares =
      let (r₁, p₁) = new_http_request infra url₁ none p in
      let (at₁, _, l₁) = new_http_request-shares infra w serves url₁ p l in
      let q = act canonical (add_header r₁ key value) p₁ in
      let p₂ = act_all canonical rest q in
      let (r₂, p₃) = new_http_request infra' url₂ none p₂ in
      let (at₂, same, _) = new_http_request-shares infra' w serves' url₂ p₂ (
        subst (λ n. w < n) (sym (act_all-next rest q ∙ act-next (add_header r₁ key value) p₁))
          l₁) in
      let on_bus =
        act_all-keeps key value w rest q spares (
          subst (λ n. In (canonical key, value) (q.headers n)) at₁
            (added_header r₁ key value p₁)) in
      (on_bus, subst (In (canonical key, value)) (sym (ap p₃.headers at₂ ∙ same)) on_bus)
