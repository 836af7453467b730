-- ===== src/Internal/Infras.antt =====
-- internal/infra_pool.go: infrastructure components, single ones and those that are lent to a worker.
-- Which type implements which interface is reflection's to say, an argument; a Go map is a list in the
-- order in which it is ranged over.
pub mod Found
mod Tests
use dt_go.Base.{ℕ, Bool, true, false, Option, none, some, List, [], ◌∷◌, ◌++◌, ◌==◌, if◌then◌else◌}
use dt_go.Internal.Services.{ServiceElement, ServicePool, Worker, chosen, pool_get, free_all}

-- The type of the field that is to be set.
pub data Wanted : Type 0 where
  concrete interface : ℕ → Wanted

-- The single components, each of its type, and the pools of the others.
pub record InfraPool : Type 0 where
  pub singles : List ServiceElement
  pub instances : ServicePool

-- `t.Kind() != reflect.Interface` and the lookup by type, or `Implements`.
abbrev pub answers_to : (ℕ → ℕ → Bool) → Wanted → ℕ → Bool
answers_to implements (concrete t) u = u == t
answers_to implements (interface t) u = implements u t

unfoldable pub single : (ℕ → ℕ → Bool) → Wanted → List ServiceElement → Option ServiceElement
single implements w [] = none
single implements w (o ∷ l) =
    let rest = single implements w l in if answers_to implements w o.type then some o else rest

-- The type whose pool is asked.
unfoldable pub much : (ℕ → ℕ → Bool) → Wanted → List ℕ → Option ℕ
much implements w [] = none
much implements w (t ∷ l) =
    let rest = much implements w l in if answers_to implements w t then some t else rest

-- What is set in the field, if it is set, and what the worker and the pools are then.
pub record Lookup : Type 0 where
  pub found : Option ServiceElement
  pub coms : List ServiceElement
  pub pool : InfraPool
  -- the components that have been told the worker
  pub told : List ServiceElement

abbrev pub lend : List ServiceElement → InfraPool → ServiceElement × ServicePool → Lookup
lend coms p (o, q) = record {
  found = some o;
  coms = coms ++ o ∷ [];
  pool = record p { instances = q };
  told = o ∷ [];
}

unfoldable pub from_pools : Option ℕ → Option ℕ → List ServiceElement → InfraPool → Lookup
unfolding pool_get
from_pools choice none coms p = record { found = none; coms = coms; pool = p; told = [] }
from_pools choice (some t) coms p =
    lend coms p (pool_get t (chosen t choice p.instances.free) p.instances)

unfoldable pub after_single :
    (ℕ → ℕ → Bool)
    → Wanted
    → Option ℕ
    → Option ServiceElement
    → List ServiceElement
    → InfraPool
    → Lookup
unfolding much from_pools
after_single implements w choice (some o) coms p = record {
  found = some o;
  coms = coms;
  pool = p;
  told = [];
}
after_single implements w choice none coms p =
    from_pools choice (much implements w p.instances.bound) coms p

-- `get` for a worker that has got `coms` so far.
unfoldable pub get_infra :
    (ℕ → ℕ → Bool) → Wanted → Option ℕ → List ServiceElement → InfraPool → Lookup
unfolding single after_single
get_infra implements w choice coms p =
    after_single implements w choice (single implements w p.singles) coms p

-- `freeHandle` at the end of the request.
unfoldable pub free_coms : Bool → List ServiceElement → InfraPool → InfraPool
unfolding free_all
free_coms deferred coms p =
    if deferred then p else record p { instances = free_all coms p.instances }
