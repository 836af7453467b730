-- ===== src/Internal/Services/Tests.antt =====
-- The theorems about internal/service_pool.go at concrete data.
use dt_go.Base.{not, ◌<◌, ◌≡◌, refl, none, some, List, [], ◌∷◌, arith, false}
use dt_go.Internal.Services.{
  Process, Action, gets, defers, ends, run, step, get_service, malloc, is_bound, take_free,
  pool_get, after_malloc, begin_request, defer_recycle_of, end_request, free_handle, drop_worker,
  free_all, free_one,
}
use dt_go.Internal.Services.Counts.{count, one_if}
use dt_go.Internal.Services.Lending.{run_lends_to_one, request_gives_back}

abbrev started : Process
started = record {
  pool = record { bound = 5 ∷ []; free = []; made = 0 };
  workers = λ i. record { services = []; defer_recycle = false };
  serves = λ x. 0;
}

-- The object 0 serves the worker 0, comes back, and serves the worker 1; the worker 2 gets another.
abbrev requests : List Action
requests = gets 0 5 none ∷ ends 0 ∷ gets 1 5 (some 0) ∷ gets 2 5 (some 0) ∷ defers 2 ∷ ends 2 ∷ []

abbrev finally : Process
finally = run requests started

has_one : 0 < count 0 (finally.workers 1).services
unfolding run step get_service malloc is_bound take_free pool_get after_malloc begin_request
    defer_recycle_of end_request free_handle drop_worker free_all free_one count
has_one = omega arith

run_lends_to_one_example :
    (count 0 (finally.workers 2).services ≡ 0)
    × (count 0 finally.pool.free ≡ 0)
    × (finally.serves 0 ≡ 1)
run_lends_to_one_example = run_lends_to_one requests started 1 2 0 (refl, λ i. refl) has_one

request_gives_back_example :
    count 0 (free_handle 1 finally).pool.free ≡ one_if (not (finally.workers 1).defer_recycle)
request_gives_back_example = request_gives_back requests started 1 0 (refl, λ i. refl) has_one
