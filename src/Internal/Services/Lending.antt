-- ===== src/Internal/Services/Lending.antt =====
-- A service object of internal/service_pool.go serves one worker at a time.
use dt_go.Base.{
  ℕ, ◌+◌, ◌<◌, ◌≡◌, inl, inr, subst, refl, sym, ap, ◌∙◌, List, [], ◌==◌, arith, Bool-cases, not,
}
use dt_go.Internal.Services.{Process, free_handle, Action, run}
use dt_go.Internal.Services.Counts.{one_if, count, AllBound, free_all-Freed}
use dt_go.Internal.Services.Placement.{Placed, run-Placed}

-- A process that has just started: nothing made, nothing lent.
abbrev pub IsNew : Process → Type 0
IsNew p = (p.pool.free ≡ []) × ((i : ℕ) → (p.workers i).services ≡ [])

nowhere : (i : ℕ) → 0 ≡ one_if (0 == 2 + i)
nowhere i = ground arith

new-Placed : (p : Process) → IsNew p → Placed (λ x. 0) p
unfolding count
new-Placed p (empty, idle) = record {
  in_free = λ x. ap (count x) empty;
  in_use = λ i x. ap (count x) (idle i) ∙ nowhere i;
  unmade = λ x h. refl;
  told = λ i x h. absurd (omega (arith, h));
  types = λ i. subst (AllBound p.pool.bound) (sym (idle i)) tt;
}

-- In whatever order requests get services, mark themselves and end, and whatever the pools choose to
-- give: an object that a worker has got stands there once, in no pool and with no other worker, and
-- the worker that it was last told to serve is the one that has got it.
pub run_lends_to_one :
    (acts : List Action) (p : Process) (i j x : ℕ)
    → IsNew p
    → 0 < count x ((run acts p).workers i).services
    → (count x ((run acts p).workers j).services ≡ one_if (i == j))
      × (count x (run acts p).pool.free ≡ 0)
      × ((run acts p).serves x ≡ i)
run_lends_to_one acts p i j x new has =
    let (place, placed) = run-Placed acts (λ y. 0) p (new-Placed p new) in
    let at : place x ≡ 2 + i = ground (arith, has, placed.in_use i x) in
    (
      ground (arith, placed.in_use j x, at),
      ground (arith, placed.in_free x, at),
      placed.told i x at,
    )

freed_pool :
    (place : ℕ → ℕ) (p : Process) (i x : ℕ)
    → Placed place p
    → count x (p.workers i).services ≡ 1
    → count x p.pool.free ≡ 0
    → count x (free_handle i p).pool.free ≡ one_if (not (p.workers i).defer_recycle)
unfolding free_handle
freed_pool place p i x placed once not_free = elim (Bool-cases (p.workers i).defer_recycle) [
  | inl e ↦ rw (e) not_free
  | inr f ↦
      let back = (free_all-Freed (p.workers i).services p.pool (placed.types i)).2 x in
      rw (f) (omega (arith, back, once, not_free))
]

-- After the handlers of its request a worker that is not marked gives back each object that it has got,
-- once; a worker that is marked gives back none.
pub request_gives_back :
    (acts : List Action) (p : Process) (i x : ℕ)
    → IsNew p
    → 0 < count x ((run acts p).workers i).services
    → count x (free_handle i (run acts p)).pool.free
      ≡ one_if (not ((run acts p).workers i).defer_recycle)
request_gives_back acts p i x new has =
    let (place, placed) = run-Placed acts (λ y. 0) p (new-Placed p new) in
    let (only, not_free, told) = run_lends_to_one acts p i i x new has in
    let once : count x ((run acts p).workers i).services ≡ 1 = ground (arith, only) in
    freed_pool place (run acts p) i x placed once not_free
