-- ===== src/Internal/Services/Counts.antt =====
-- How often an object stands in the lists of internal/service_pool.go.
use dt_go.Base.{
  ℕ, zero, suc, ◌+◌, ◌≡◌, ◌⊎◌, subst, refl, sym, ◌∙◌, Bool, true, false, Option, none, some, List,
  [], ◌∷◌, ◌++◌, ◌==◌, All, arith, Bool-cases, inl, inr, ==_iff,
}
use mathlib.Core.Option.{some-injective}
use dt_go.Internal.Services.{
  ServiceElement, ServicePool, is_bound, take_free, pool_get, malloc, free_one, chosen, free_all,
  keep_first,
}

abbrev pub one_if : Bool → ℕ
one_if true = 1
one_if false = 0

unfoldable pub count : ℕ → List ServiceElement → ℕ
count x [] = 0
count x (o ∷ l) = one_if (o.id == x) + count x l

pub count-append : (x : ℕ) (l m : List ServiceElement) → count x (l ++ m) ≡ count x l + count x m
unfolding count
count-append x [] m = omega arith
count-append x (o ∷ l) m = omega (arith, count-append x l m)

-- What is taken, and the others, are what was there; it has the type that was asked for.
abbrev pub Takes : ℕ → List ServiceElement → Option (ServiceElement × List ServiceElement) → Type 0
Takes t l none = Unit
Takes t l (some (o, rest)) =
    (o.type ≡ t) × ((x : ℕ) → count x l ≡ one_if (o.id == x) + count x rest)

keep_first-Takes :
    (t : ℕ) (s : ServiceElement) (l : List ServiceElement)
    (r : Option (ServiceElement × List ServiceElement))
    → Takes t l r
    → Takes t (s ∷ l) (keep_first s r)
unfolding count
keep_first-Takes t s l none h = tt
keep_first-Takes t s l (some (o, rest)) h = (h.0, λ x. omega (arith, h.1 x))

pub take_free-Takes : (t n : ℕ) (l : List ServiceElement) → Takes t l (take_free t n l)
unfolding take_free count
take_free-Takes t n [] = tt
take_free-Takes t zero (s ∷ l) = elim (Bool-cases (s.type == t)) [
  | inl e ↦ rw (e) ((==_iff s.type t).0 e, λ x. refl)
  | inr f ↦ rw (f) (keep_first-Takes t s l (take_free t zero l) (take_free-Takes t zero l))
]
take_free-Takes t (suc n) (s ∷ l) = elim (Bool-cases (s.type == t)) [
  | inl e ↦ rw (e) (keep_first-Takes t s l (take_free t n l) (take_free-Takes t n l))
  | inr f ↦ rw (f) (keep_first-Takes t s l (take_free t (suc n) l) (take_free-Takes t (suc n) l))
]

abbrev pub AllBound : List ℕ → List ServiceElement → Type 0
AllBound bound l = All (λ (o : ServiceElement). is_bound o.type bound ≡ true) l

-- The objects of l have come back to the pool p, which is then q.
abbrev pub Freed : List ServiceElement → ServicePool → ServicePool → Type 0
Freed l p q =
    (q.bound ≡ p.bound)
    × (q.made ≡ p.made)
    × ((x : ℕ) → count x q.free ≡ count x l + count x p.free)

free_one-bound :
    (o : ServiceElement) (p : ServicePool)
    → is_bound o.type p.bound ≡ true
    → free_one o p ≡ record p { free = o ∷ p.free }
unfolding free_one
free_one-bound o p h = rw (h) refl

pub free_all-Freed :
    (l : List ServiceElement) (p : ServicePool) → AllBound p.bound l → Freed l p (free_all l p)
unfolding free_all count
free_all-Freed [] p h = (refl, refl, λ x. omega arith)
free_all-Freed (o ∷ l) p h =
    let rest = free_all-Freed l (record p { free = o ∷ p.free }) h.1 in
    subst (λ q. Freed (o ∷ l) p (free_all l q)) (sym (free_one-bound o p h.0))
      (rest.0, rest.1, λ x. omega (arith, rest.2 x))

-- What the pool gives has the type that was asked for, and was in the pool or is new.
abbrev pub Given : ℕ → ServicePool → ServiceElement × ServicePool → Type 0
Given t p (o, q) =
    (o.type ≡ t)
    × (q.bound ≡ p.bound)
    × ((((x : ℕ) → count x p.free ≡ one_if (o.id == x) + count x q.free) × (q.made ≡ p.made))
        ⊎ ((q.free ≡ p.free) × (o.id ≡ p.made) × (q.made ≡ suc p.made)))

pub pool_get-Given :
    (t : ℕ) (taken : Option (ServiceElement × List ServiceElement)) (p : ServicePool)
    → Takes t p.free taken
    → Given t p (pool_get t taken p)
unfolding pool_get
pool_get-Given t none p h = (refl, refl, inr (refl, refl, refl))
pool_get-Given t (some (o, rest)) p h = (h.0, refl, inl (h.1, refl))

pub chosen-Takes :
    (t : ℕ) (choice : Option ℕ) (l : List ServiceElement) → Takes t l (chosen t choice l)
chosen-Takes t none l = tt
chosen-Takes t (some n) l = take_free-Takes t n l

malloc-bound :
    (t : ℕ) (choice : Option ℕ) (p : ServicePool)
    → is_bound t p.bound ≡ true
    → some (pool_get t (chosen t choice p.free) p) ≡ malloc t choice p
unfolding malloc
malloc-bound t choice p f = rw (f) refl

pub malloc-Given :
    (t : ℕ) (choice : Option ℕ) (p : ServicePool) (o : ServiceElement) (q : ServicePool)
    → malloc t choice p ≡ some (o, q)
    → (is_bound t p.bound ≡ true) × Given t p (o, q)
unfolding malloc
malloc-Given t choice p o q e = elim (Bool-cases (is_bound t p.bound)) [
  | inl f ↦ (
    f,
    subst (Given t p) (some-injective _ _ (malloc-bound t choice p f ∙ e))
        (pool_get-Given t (chosen t choice p.free) p (chosen-Takes t choice p.free)),
  )
  | inr f ↦ absurd (ground (arith, e, f))
]
