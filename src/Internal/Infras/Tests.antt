-- ===== src/Internal/Infras/Tests.antt =====
-- The theorems about internal/infra_pool.go at concrete data.
use dt_go.Base.{ℕ, Bool, [], ◌∷◌, ◌==◌}
use dt_go.Internal.Infras.{InfraPool}

-- The type 7 implements every interface.
abbrev implements : ℕ → ℕ → Bool
implements u i = u == 7

abbrev pool : InfraPool
pool = record {
  singles = record { type = 9; id = 100 } ∷ [];
  instances = record { bound = 7 ∷ 5 ∷ []; free = record { type = 7; id = 0 } ∷ []; made = 1 };
}
