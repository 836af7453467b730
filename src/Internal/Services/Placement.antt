-- ===== src/Internal/Services/Placement.antt =====
-- Where the service objects of internal/service_pool.go are, over every action.
use dt_go.Base.{
  ℕ, suc, ◌+◌, ◌≤◌, ◌≡◌, ◌⊎◌, inl, inr, subst, refl, sym, ap, ◌∙◌, true, false, Option, none, some,
  List, [], ◌∷◌, ◌++◌, ◌==◌, ==_iff, All-append, arith, if◌then◌else◌, Bool-cases,
}
use dt_go.Internal.Services.{
  ServiceElement, ServicePool, Process, is_bound, malloc, free_all, after_malloc, begin_request,
  set_worker, get_service, defer_recycle_of, free_handle, drop_worker, end_request, Action, gets,
  defers, ends, with_process, step, run,
}
use dt_go.Internal.Services.Counts.{
  one_if, count, count-append, AllBound, Freed, free_all-Freed, Given, malloc-Given,
}

-- Where every object is: 0 nowhere, 1 in a pool, 2 + i with the i-th worker.
pub record Placed (place : ℕ → ℕ) (p : Process) : Type 0 where
  pub in_free : (x : ℕ) → count x p.pool.free ≡ one_if (place x == 1)
  pub in_use : (i x : ℕ) → count x (p.workers i).services ≡ one_if (place x == 2 + i)
  pub unmade : (x : ℕ) → p.pool.made ≤ x → place x ≡ 0
  pub told : (i x : ℕ) → place x ≡ 2 + i → p.serves x ≡ i
  pub types : (i : ℕ) → AllBound p.pool.bound (p.workers i).services

-- An object moves to the i-th worker.
abbrev lent_to : ℕ → ℕ → (ℕ → ℕ) → ℕ → ℕ
lent_to i o place x = if o == x then 2 + i else place x

module _ (place : ℕ → ℕ) (p : Process) (placed : Placed place p) (i t : ℕ) (o : ServiceElement)
    (q : ServicePool) (given : Given t p.pool (o, q)) where
  -- The object was in a pool, or is new.
  from_where :
      ((place o.id ≡ 1) × (q.made ≡ p.pool.made))
      ⊎ ((place o.id ≡ 0) × (o.id ≡ p.pool.made) × (q.made ≡ suc p.pool.made))
  from_where = elim given.2 [
    | inl (counts, made) ↦ inl (ground (arith, counts o.id, placed.in_free o.id), made)
    | inr (same, new, made) ↦ inr (placed.unmade o.id (omega (arith, new)), new, made)
  ]

  count_one : (x : ℕ) → count x (o ∷ []) ≡ one_if (o.id == x)
  unfolding count
  count_one x = omega arith

  same_place : (x : ℕ) → (o.id == x) ≡ true → place x ≡ place o.id
  same_place x e = ap place (sym ((==_iff o.id x).0 e))

  free_at : (x : ℕ) → (o.id == x) ≡ true → place x ≤ 1
  free_at x e =
      subst (λ y. place y ≤ 1) ((==_iff o.id x).0 e)
        (elim from_where [ inl h ↦ omega (arith, h.0) | inr h ↦ omega (arith, h.0) ])

  lent_in_free : (x : ℕ) → count x q.free ≡ one_if (lent_to i o.id place x == 1)
  lent_in_free x = elim given.2 [
    | inl (counts, made) ↦ ground (arith, counts x, placed.in_free x)
    | inr (same, new, made) ↦
        ap (count x) same ∙ placed.in_free x ∙ ground (arith, placed.unmade x, new)
  ]

  lent_in_use :
      (j x : ℕ)
      → count x
          ((if i == j
            then record (p.workers i) { services = (p.workers i).services ++ o ∷ [] }
            else p.workers j)).services
        ≡ one_if (lent_to i o.id place x == 2 + j)
  lent_in_use j x = elim (Bool-cases (i == j)) [
    | inl e ↦ rw (e) (
        ground (
          arith,
          count-append x (p.workers i).services (o ∷ []),
          count_one x,
          placed.in_use i x,
          free_at x,
          e,
        ))
    | inr f ↦ rw (f) (ground (arith, placed.in_use j x, free_at x, f))
  ]

  lent_unmade : (x : ℕ) → q.made ≤ x → lent_to i o.id place x ≡ 0
  lent_unmade x h = elim from_where [
    | inl k ↦ ground (arith, h, k.0, k.1, placed.unmade x, same_place x)
    | inr k ↦ ground (arith, h, k.1, k.2, placed.unmade x)
  ]

  lent_told : (j x : ℕ) → lent_to i o.id place x ≡ 2 + j → (if o.id == x then i else p.serves x) ≡ j
  lent_told j x h = ground (arith, h, placed.told j x)

  lent_types :
      is_bound t p.pool.bound ≡ true
      → (j : ℕ)
      → AllBound q.bound
          ((if i == j
            then record (p.workers i) { services = (p.workers i).services ++ o ∷ [] }
            else p.workers j)).services
  lent_types bound j = elim (Bool-cases (i == j)) [
    | inl e ↦ rw (e) (
        subst (λ b. AllBound b ((p.workers i).services ++ o ∷ [])) (sym given.1)
          (All-append (λ (s : ServiceElement). is_bound s.type p.pool.bound ≡ true)
            (p.workers i).services (o ∷ []) (placed.types i)
            (ap (λ y. is_bound y p.pool.bound) given.0 ∙ bound, tt)))
    | inr f ↦ rw (f) (subst (λ b. AllBound b (p.workers j).services) (sym given.1) (placed.types j))
  ]

after_malloc-Placed :
    (place : ℕ → ℕ) (p : Process) (i t : ℕ) (m : Option (ServiceElement × ServicePool))
    → Placed place p
    → ((o : ServiceElement) (q : ServicePool)
        → m ≡ some (o, q)
        → (is_bound t p.pool.bound ≡ true) × Given t p.pool (o, q))
    → (place' : ℕ → ℕ) × Placed place' (with_process p (after_malloc i m p))
unfolding after_malloc begin_request
after_malloc-Placed place p i t none placed gives = (place, placed)
after_malloc-Placed place p i t (some (o, q)) placed gives =
    let (bound, given) = gives o q refl in
    (
      lent_to i o.id place,
      record {
        in_free = lent_in_free place p placed i t o q given;
        in_use = lent_in_use place p placed i t o q given;
        unmade = lent_unmade place p placed i t o q given;
        told = lent_told place p placed i t o q given;
        types = lent_types place p placed i t o q given bound;
      },
    )

-- The objects of the i-th worker go back to the pools.
abbrev back_from : ℕ → (ℕ → ℕ) → ℕ → ℕ
back_from i place x = if place x == 2 + i then 1 else place x

ended-Placed :
    (place : ℕ → ℕ) (p : Process) (i : ℕ) (q : ServicePool)
    → Placed place p
    → Freed (p.workers i).services p.pool q
    → Placed
        (back_from i place)
        (set_worker i (record { services = []; defer_recycle = false }) (record p { pool = q }))
unfolding count
ended-Placed place p i q placed (bound, made, counts) = record {
  in_free = λ x. ground (arith, counts x, placed.in_free x, placed.in_use i x);
  in_use = λ j x. elim (Bool-cases (i == j)) [
    | inl e ↦ rw (e) (ground (arith, e))
    | inr f ↦ rw (f) (ground (arith, f, placed.in_use j x))
  ];
  unmade = λ x h. ground (arith, h, made, placed.unmade x);
  told = λ j x h. ground (arith, h, placed.told j x);
  types = λ j. elim (Bool-cases (i == j)) [
    | inl e ↦ rw (e) tt
    | inr f ↦ rw (f) (subst (λ b. AllBound b (p.workers j).services) (sym bound) (placed.types j))
  ];
}

end_request-Placed :
    (place : ℕ → ℕ) (p : Process) (i : ℕ)
    → Placed place p
    → (place' : ℕ → ℕ) × Placed place' (end_request i p)
unfolding end_request free_handle drop_worker
end_request-Placed place p i placed = elim (Bool-cases (p.workers i).defer_recycle) [
  | inl e ↦ rw (e, e) (place, placed)
  | inr f ↦
      rw (f, f)
        (
          back_from i place,
          ended-Placed place p i (free_all (p.workers i).services p.pool) placed
              (free_all-Freed (p.workers i).services p.pool (placed.types i)),
        )
]

defer-Placed :
    (place : ℕ → ℕ) (p : Process) (i : ℕ) → Placed place p → Placed place (defer_recycle_of i p)
unfolding defer_recycle_of
defer-Placed place p i placed = record {
  in_free = placed.in_free;
  in_use = λ j x. elim (Bool-cases (i == j)) [
    | inl e ↦
        rw (e) (ap (λ k. count x (p.workers k).services) ((==_iff i j).0 e) ∙ placed.in_use j x)
    | inr f ↦ rw (f) (placed.in_use j x)
  ];
  unmade = placed.unmade;
  told = placed.told;
  types = λ j. elim (Bool-cases (i == j)) [
    | inl e ↦ rw (e) (placed.types i)
    | inr f ↦ rw (f) (placed.types j)
  ];
}

pub run-Placed :
    (acts : List Action) (place : ℕ → ℕ) (p : Process)
    → Placed place p
    → (place' : ℕ → ℕ) × Placed place' (run acts p)
unfolding run step get_service
run-Placed [] place p placed = (place, placed)
run-Placed (gets i t choice ∷ acts) place p placed =
    let (place', placed') =
      after_malloc-Placed place p i t (malloc t choice p.pool) placed
        (malloc-Given t choice p.pool) in
    run-Placed acts place' (with_process p (get_service i t choice p)) placed'
run-Placed (defers i ∷ acts) place p placed =
    run-Placed acts place (defer_recycle_of i p) (defer-Placed place p i placed)
run-Placed (ends i ∷ acts) place p placed =
    let (place', placed') = end_request-Placed place p i placed in
    run-Placed acts place' (end_request i p) placed'
