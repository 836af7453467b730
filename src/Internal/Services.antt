-- ===== src/Internal/Services.antt =====
-- internal/service_pool.go and the recycling of internal/worker.go: service objects are lent to the
-- worker of a request and go back to a `sync.Pool` at its end. A pool that is asked may give any
-- object of the type that it has got back, or a new one: the choice is an argument.
pub mod Counts
pub mod Placement
pub mod Lending
mod Tests
use dt_go.Base.{
  ℕ, zero, suc, ◌+◌, Bool, true, false, not, Option, none, some, List, [], ◌∷◌, ◌++◌, ◌==◌,
  if◌then◌else◌,
}

-- A service object: its type, and which object of the process it is.
pub record ServiceElement : Type 0 where
  pub type : ℕ
  pub id : ℕ

-- The types that are bound, the objects in the pools, and the number of objects made so far.
pub record ServicePool : Type 0 where
  pub bound : List ℕ
  pub free : List ServiceElement
  pub made : ℕ

-- What a worker has got, and its mark.
pub record Worker : Type 0 where
  pub services : List ServiceElement
  pub defer_recycle : Bool

-- The process: its pool, its workers, and the worker that each object was last told to serve.
pub record Process : Type 0 where
  pub pool : ServicePool
  pub workers : ℕ → Worker
  pub serves : ℕ → ℕ

unfoldable pub is_bound : ℕ → List ℕ → Bool
is_bound t [] = false
is_bound t (u ∷ us) = let rest = is_bound t us in if u == t then true else rest

abbrev pub keep_first :
    ServiceElement
    → Option (ServiceElement × List ServiceElement)
    → Option (ServiceElement × List ServiceElement)
keep_first s none = none
keep_first s (some (o, rest)) = some (o, s ∷ rest)

-- The n-th object of the type t, and the others.
unfoldable pub take_free :
    ℕ → ℕ → List ServiceElement → Option (ServiceElement × List ServiceElement)
take_free t n [] = none
take_free t zero (s ∷ l) =
    let later = keep_first s (take_free t zero l) in if s.type == t then some (s, l) else later
take_free t (suc n) (s ∷ l) =
    let skip = keep_first s (take_free t n l) in
    let later = keep_first s (take_free t (suc n) l) in if s.type == t then skip else later

-- `sync.Pool.Get`: an object that has come back, or one that `New` makes.
unfoldable pub pool_get :
    ℕ → Option (ServiceElement × List ServiceElement) → ServicePool → ServiceElement × ServicePool
pool_get t (some (o, rest)) p = (o, record p { free = rest })
pool_get t none p = (record { type = t; id = p.made }, record p { made = suc p.made })

abbrev pub chosen :
    ℕ → Option ℕ → List ServiceElement → Option (ServiceElement × List ServiceElement)
chosen t none l = none
chosen t (some n) l = take_free t n l

-- `malloc`; the choice is the place in the pool, or `none` for a new object.
unfoldable pub malloc : ℕ → Option ℕ → ServicePool → Option (ServiceElement × ServicePool)
unfolding is_bound take_free pool_get
malloc t choice p =
    if is_bound t p.bound then some (pool_get t (chosen t choice p.free) p) else none

abbrev pub set_worker : ℕ → Worker → Process → Process
set_worker i w p = record p { workers = λ j. if i == j then w else p.workers j }

-- `beginRequest`: the worker is set in the object.
unfoldable pub begin_request : ℕ → ServiceElement → Process → Process
begin_request i o p = record p { serves = λ x. if o.id == x then i else p.serves x }

unfoldable pub after_malloc :
    ℕ → Option (ServiceElement × ServicePool) → Process → Option (ServiceElement × Process)
unfolding begin_request
after_malloc i none p = none
after_malloc i (some (o, pool)) p = some (
  o,
  set_worker i (record (p.workers i) { services = (p.workers i).services ++ o ∷ [] })
      (begin_request i o (record p { pool = pool })),
)

-- `get` of the i-th worker: it panics where the type is not bound.
unfoldable pub get_service : ℕ → ℕ → Option ℕ → Process → Option (ServiceElement × Process)
unfolding malloc after_malloc
get_service i t choice p = after_malloc i (malloc t choice p.pool) p

-- `free`: an object of a type that is not bound is dropped.
unfoldable pub free_one : ServiceElement → ServicePool → ServicePool
unfolding is_bound
free_one o p = if is_bound o.type p.bound then record p { free = o ∷ p.free } else p

unfoldable pub free_all : List ServiceElement → ServicePool → ServicePool
unfolding free_one
free_all [] p = p
free_all (o ∷ os) p = free_all os (free_one o p)

-- `DeferRecycle`
unfoldable pub defer_recycle_of : ℕ → Process → Process
defer_recycle_of i p = set_worker i (record (p.workers i) { defer_recycle = true }) p

-- `freeHandle` after the handlers of the request: what the worker lists goes back, but stays listed. A
-- worker that has been marked gives nothing back.
unfoldable pub free_handle : ℕ → Process → Process
unfolding free_all
free_handle i p =
    if (p.workers i).defer_recycle
    then p
    else record p { pool = free_all (p.workers i).services p.pool }

-- The end of `newWorkerHandle`: the worker leaves the context, so no code of the request reaches it any
-- more, and its number is free for a new worker; one that has been marked lives on.
unfoldable pub drop_worker : ℕ → Process → Process
drop_worker i p =
    if (p.workers i).defer_recycle
    then p
    else set_worker i (record { services = []; defer_recycle = false }) p

-- The end of a request: the handlers return in the reverse order in which they were entered.
unfoldable pub end_request : ℕ → Process → Process
unfolding free_handle drop_worker
end_request i p = drop_worker i (free_handle i p)

-- The actions of the requests, in any order.
pub data Action : Type 0 where
  gets : ℕ → ℕ → Option ℕ → Action
  defers ends : ℕ → Action

abbrev pub with_process : Process → Option (ServiceElement × Process) → Process
with_process p none = p
with_process p (some (o, q)) = q

-- A `get` that panics leaves the pools as they are.
unfoldable pub step : Action → Process → Process
unfolding get_service defer_recycle_of end_request
step (gets i t choice) p = with_process p (get_service i t choice p)
step (defers i) p = defer_recycle_of i p
step (ends i) p = end_request i p

unfoldable pub run : List Action → Process → Process
unfolding step
run [] p = p
run (a ∷ acts) p = run acts (step a p)
