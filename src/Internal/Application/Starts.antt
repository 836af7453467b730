-- ===== src/Internal/Application/Starts.antt =====
-- internal/app.go: the order of what `Run` does, and the starters that it runs.
use mathlib.Core.List.{map}
use dt_go.Base.{ℕ, Option, none, some, List, [], ◌∷◌, ◌++◌, String, ◌≡◌, if◌then◌else◌}
use dt_go.Internal.Application.{
  Value, struct_of, Application, Step, use_worker, use_services, use_components, use_middleware,
  install_db, install_cache, install_tables, prepare, start, build_events, boot_components,
  register_shutdown, serve, Call, start_call, inject_controller, starters,
}

-- The starters of the other application.
abbrev pub others : Application → List ℕ
others app = if app.private then app.public_starters else app.private_starters

abbrev pub registered_by : List Call → List ℕ
registered_by [] = []
registered_by (start_call f ∷ cs) = f ∷ registered_by cs
registered_by (inject_controller f ∷ cs) = registered_by cs

-- The starters that the prepare functions register, in order.
abbrev pub registered_all : (ℕ → List Call) → List ℕ → List ℕ
registered_all calls [] = []
registered_all calls (f ∷ fs) = registered_by (calls f) ++ registered_all calls fs

-- What is the same of two applications but for starters of the own kind.
pub record Later (more : List ℕ) (app last : Application) : Type 0 where
  pub starters_grow : starters last ≡ starters app ++ more
  pub others_same : others last ≡ others app
  pub db_same : last.db ≡ app.db

-- `booting` does not panic on it.
abbrev pub HasStruct : Value → Type 0
HasStruct v = (s : String) × (struct_of v.type ≡ some s)

abbrev pub if_there : (ℕ → Step) → Option ℕ → List Step
if_there s none = []
if_there s (some n) = s n ∷ []

-- What `Run` does, in order: the handlers of the worker, the services and the components before those
-- of the user, the installed connections, every prepare function, then each starter of this application
-- once, also those that prepare functions have registered, and then events, components and the server.
abbrev pub expected : (ℕ → List Call) → Application → List Step
expected calls app =
    (use_worker ∷ use_services ∷ use_components ∷ map (λ m. use_middleware m) app.middleware)
    ++ ((if_there (λ n. install_db n) app.db_install
          ++ if_there (λ n. install_cache n) app.cache_install
          ++ if_there (λ n. install_tables n) app.table_install)
        ++ (map (λ f. prepare f) app.prepares
            ++ (map (λ f. start f) (starters app ++ registered_all calls app.prepares)
                ++ (build_events ∷ boot_components ∷ register_shutdown ∷ serve ∷ []))))

-- What was installed last counts.
abbrev pub newest : Option ℕ → Option ℕ → Option ℕ
newest none old = old
newest (some n) old = some n
