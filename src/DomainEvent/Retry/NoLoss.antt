-- ===== src/DomainEvent/Retry/NoLoss.antt =====
-- The retries of infra/domainevent/manager.go lose no event.
use dt_go.Base.{
  ℕ, zero, suc, ◌+◌, ◌≡◌, refl, sym, ap, ◌∙◌, subst, Bool, true, false, Option, none, some, List,
  [], ◌∷◌, ◌++◌, In, In-append_left, In-append_right, ◌⊎◌, inl, inr, ◌==◌, if◌then◌else◌, ==_iff,
  Bool-cases,
}
use dt_go.DomainEvent.Retry.{
  TableRow, Handled, handled, handler_error, handler_panic, Answers, Progress, delete_event,
  get_fail_events, deliver, handle_events, over_fetched, retry, retry_loop, single_retry_num,
}

In-delete_event :
    (id : ℕ) (r : TableRow) (table : List TableRow)
    → In r table
    → In r (delete_event id table) ⊎ (r.id ≡ id)
unfolding delete_event
In-delete_event id r [] h = absurd h
In-delete_event id r (x ∷ xs) (inl same) = elim (Bool-cases (x.id == id)) [
  | inl hit ↦ inr (ap (λ (t : TableRow). t.id) (sym same) ∙ (==_iff x.id id).0 hit)
  | inr miss ↦ inl (rw miss (inl same))
]
In-delete_event id r (x ∷ xs) (inr h) = go (x.id == id) (In-delete_event id r xs h)
  where
    go :
        (b : Bool)
        → In r (delete_event id xs) ⊎ (r.id ≡ id)
        → In r (if b then delete_event id xs else x ∷ delete_event id xs) ⊎ (r.id ≡ id)
    go true k = k
    go false (inl k) = inl (inr k)
    go false (inr e) = inr e

-- The row is still in the table, or a row of its id has been delivered and `H` holds for that.
abbrev pub Kept : (TableRow → Type 0) → TableRow → Progress → Type 0
Kept H r p = In r p.table ⊎ ((d : TableRow) × H d × (d.id ≡ r.id) × In d p.delivered)

abbrev KeptIn : (TableRow → Type 0) → TableRow → Option Progress → Type 0
KeptIn H r none = Unit
KeptIn H r (some p) = Kept H r p

module _ (H : TableRow → Type 0) (r : TableRow) where
  Kept-deliver :
      (a : Answers) (d : TableRow) (p : Progress) → H d → Kept H r p → Kept H r (deliver a d p)
  Kept-deliver a d p ok (inr (x, hx, e, later)) =
      inr (x, hx, e, In-append_left x p.delivered (d ∷ []) later)
  Kept-deliver a d p ok (inl h) = go (a.deletes d.id) (In-delete_event d.id r p.table h)
    where
      go :
          (b : Bool)
          → In r (delete_event d.id p.table) ⊎ (r.id ≡ d.id)
          → Kept H r (record {
            table = if b then delete_event d.id p.table else p.table;
            delivered = p.delivered ++ d ∷ [];
          })
      go false k = inl h
      go true (inl k) = inl k
      go true (inr e) = inr (d, ok, sym e, In-append_right d p.delivered (d ∷ []) (inl refl))

  module _ (handler : TableRow → Handled) (ok : (d : TableRow) → handler d ≡ handled → H d) where
    Kept-handle_events :
        (a : Answers) (rs : List TableRow) (err : Bool) (p : Progress)
        → Kept H r p
        → Kept H r (handle_events a handler rs err p).1
    unfolding handle_events
    Kept-handle_events a [] err p k = k
    Kept-handle_events a (d ∷ rs) err p k =
        go (handler d) refl (λ q kq. Kept-handle_events a rs false q kq)
          (Kept-handle_events a rs true p k)
      where
        go :
            (v : Handled)
            → handler d ≡ v
            → ((q : Progress) → Kept H r q → Kept H r (handle_events a handler rs false q).1)
            → Kept H r (handle_events a handler rs true p).1
            → Kept H r (
                let res : Bool × Progress = elim v [
                  | handled ↦ handle_events a handler rs false (deliver a d p)
                  | handler_error ↦ handle_events a handler rs true p
                  | handler_panic ↦ (true, p)
                ] in
                res.1)
        go handled e onward failing = onward (deliver a d p) (Kept-deliver a d p (ok d e) k)
        go handler_error e onward failing = failing
        go handler_panic e onward failing = k

    Kept-retry : (a : Answers) (p : Progress) → Kept H r p → Kept H r (retry a handler p).1
    unfolding retry
    Kept-retry a p k = go (get_fail_events a single_retry_num p.table)
      where
        go : (o : Option (List TableRow)) → Kept H r (over_fetched a handler o p).1
        go none = k
        go (some []) = k
        go (some (x ∷ xs)) = Kept-handle_events a (x ∷ xs) false p k

  Kept-loop :
      (fuel : ℕ) (answers : ℕ → Answers) (handler : ℕ → TableRow → Handled) (i : ℕ) (p q : Progress)
      → ((j : ℕ) (d : TableRow) → handler j d ≡ handled → H d)
      → Kept H r p
      → retry_loop fuel answers handler i p ≡ some q
      → Kept H r q
  unfolding retry_loop
  Kept-loop zero answers handler i p q ok k e = cc
  Kept-loop (suc fuel) answers handler i p q ok k e =
      go (retry (answers i) (handler i) p) (Kept-retry (handler i) (ok i) (answers i) p k)
        (λ p' k'. Kept-loop fuel answers handler (i + 1) p' q ok k') e
    where
      go :
          (z : Bool × Progress)
          → Kept H r z.1
          → ((p' : Progress)
              → Kept H r p'
              → retry_loop fuel answers handler (i + 1) p' ≡ some q
              → Kept H r q)
          → (elim z.0 [ true ↦ some z.1 | false ↦ retry_loop fuel answers handler (i + 1) z.1 ])
            ≡ some q
          → Kept H r q
      go (true, p') kz onward f = subst (KeptIn H r) f kz
      go (false, p') kz onward f = onward p' kz f

-- A row leaves the table only because of a delivery: after any number of rounds, whatever fails in
-- them, each row is still there, or the handler has returned nil in some round for a row of its id.
pub retry_loop_loses_nothing :
    (fuel : ℕ) (answers : ℕ → Answers) (handler : ℕ → TableRow → Handled) (p q : Progress)
    (r : TableRow)
    → In r p.table
    → retry_loop fuel answers handler 0 p ≡ some q
    → In r q.table
      ⊎ ((d : TableRow) × ((j : ℕ) × (handler j d ≡ handled)) × (d.id ≡ r.id) × In d q.delivered)
retry_loop_loses_nothing fuel answers handler p q r h e =
    Kept-loop (λ d. (j : ℕ) × (handler j d ≡ handled)) r fuel answers handler 0 p q
      (λ j d g. (j, g)) (inl h) e
