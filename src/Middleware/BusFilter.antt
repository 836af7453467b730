-- ===== src/Middleware/BusFilter.antt =====
-- middleware/bus.go: the middleware that takes the headers off a worker's bus that do not begin with
-- x- or X-. The order in which the header map is ranged over is an argument, as is
-- `http.CanonicalHeaderKey`.
pub mod Passed
mod Tests
use text.Mathlib.Text.{starts_with}
use dt_go.Base.{Bool, true, List, [], ◌∷◌, String, if◌then◌else◌}
use dt_go.Internal.Headers.{Process, Worker, bus_del, act}

unfoldable pub is_passed : String → Bool
is_passed key = if starts_with key "x-" then true else starts_with key "X-"

-- The function that `NewBusFilter` returns, over the keys in the order of iteration.
unfoldable pub bus_filter : (String → String) → Worker → List String → Process → Process
unfolding act
bus_filter canonical run [] p = p
bus_filter canonical run (key ∷ keys) p =
    bus_filter canonical run keys (if is_passed key then p else act canonical (bus_del run key) p)
