-- ===== src/Internal/Application.antt =====
-- internal/app.go, internal/core.go and internal/other.go: what is installed in an application, and the
-- order in which `Run` sets it up. A function of the user is known by a number, and what it calls or
-- returns is an argument. A prepare function calls the methods of its `Initiator` only.
pub mod Starts
mod Tests
use mathlib.Core.List.{map}
use dt_go.Base.{
  ℕ, Bool, true, false, Option, none, some, List, [], ◌∷◌, ◌++◌, String, if◌then◌else◌, ◌==◌, ◌&&◌,
  str_eq, ◌>>=◌,
}
use dt_go.Base.Maps.{Map, find, put}

-- A struct by its name, a type with an element, or one on which `Elem` panics.
pub data GoType : Type 0 where
  struct_type plain_type : String → GoType
  elem_type : GoType → GoType

-- The loop `for t.Kind() != reflect.Struct { t = t.Elem() }`.
abbrev pub struct_of : GoType → Option String
struct_of (struct_type s) = some s
struct_of (plain_type s) = none
struct_of (elem_type t) = struct_of t

unfoldable pub eq_type : GoType → GoType → Bool
eq_type (struct_type s) (struct_type t) = str_eq s t
eq_type (struct_type s) (plain_type t) = false
eq_type (struct_type s) (elem_type t) = false
eq_type (plain_type s) (struct_type t) = false
eq_type (plain_type s) (plain_type t) = str_eq s t
eq_type (plain_type s) (elem_type t) = false
eq_type (elem_type s) (struct_type t) = false
eq_type (elem_type s) (plain_type t) = false
eq_type (elem_type s) (elem_type t) = eq_type s t

pub record Value : Type 0 where
  pub type : GoType
  pub id : ℕ

-- `installs` are the functions, by what they return.
pub record Other : Type 0 where
  pub installs : List Value
  pub pool : Map Value

abbrev pub add : Value → Other → Other
add f o = record o { installs = o.installs ++ f ∷ [] }

unfoldable pub boot_all : List Value → Map Value → Option (Map Value)
unfolding put
boot_all [] pool = some pool
boot_all (install ∷ rest) pool =
    struct_of install.type >>= (λ t. boot_all rest (put pool t install))

unfoldable pub booting : Other → Option Other
unfolding boot_all
booting o = boot_all o.installs o.pool >>= (λ pool. some (record o { pool = pool }))

abbrev set_to : GoType → Value → Option Value
set_to t v = if eq_type t v.type then some v else none

-- `get` on a pointer to a variable of type t: what is put there, or none where it panics.
unfoldable pub get : GoType → Other → Option Value
unfolding find eq_type
get t o = struct_of t >>= (λ s. find o.pool s >>= set_to t)

-- An application and the lists that the process keeps for both. `db`, `tables` and `client` are what
-- the installed functions have returned; an installed function is known by what it returns.
pub record Application : Type 0 where
  pub private : Bool
  pub middleware : List ℕ
  pub controller_dep : List ℕ
  pub db_install : Option ℕ
  pub db : Option ℕ
  pub table_install : Option ℕ
  pub tables : Option ℕ
  pub cache_install : Option ℕ
  pub other : Other
  pub prepares : List ℕ
  pub private_starters : List ℕ
  pub public_starters : List ℕ

-- What `Run` does, in order. `install_cache` is the start of the goroutine that sets the client.
pub data Step : Type 0 where
  use_worker use_services use_components : Step
  use_middleware install_db install_cache install_tables prepare start : ℕ → Step
  build_events boot_components register_shutdown serve : Step

-- The methods of `Initiator` that change these fields.
pub data Call : Type 0 where
  start_call inject_controller : ℕ → Call

abbrev pub starters : Application → List ℕ
starters app = if app.private then app.private_starters else app.public_starters

-- `Start`
abbrev pub add_starter : ℕ → Application → Application
add_starter f app = record app {
  private_starters = if app.private then app.private_starters ++ f ∷ [] else app.private_starters;
  public_starters = if app.private then app.public_starters else app.public_starters ++ f ∷ [];
}

abbrev pub call : Call → Application → Application
call (start_call f) app = add_starter f app
call (inject_controller f) app = record app { controller_dep = app.controller_dep ++ f ∷ [] }

unfoldable pub call_all : List Call → Application → Application
call_all [] app = app
call_all (c ∷ cs) app = call_all cs (call c app)

abbrev pub add_middlewares : Application → List Step
add_middlewares app =
    use_worker ∷ use_services ∷ use_components ∷ map (λ m. use_middleware m) app.middleware

abbrev pub step_if : (ℕ → Step) → Option ℕ → List Step
step_if s none = []
step_if s (some n) = s n ∷ []

abbrev pub installed : Option ℕ → Option ℕ → Option ℕ
installed none old = old
installed (some n) old = some n

abbrev pub install_all : Application → List Step
install_all app =
    step_if (λ n. install_db n) app.db_install
    ++ step_if (λ n. install_cache n) app.cache_install
    ++ step_if (λ n. install_tables n) app.table_install

abbrev pub with_installed : Application → Application
with_installed app = record app {
  db = installed app.db_install app.db;
  tables = installed app.table_install app.tables;
}

-- The loop over `prepares`.
unfoldable pub run_prepares : (ℕ → List Call) → List ℕ → Application → List Step × Application
unfolding call_all
run_prepares calls [] app = ([], app)
run_prepares calls (f ∷ fs) app =
    let (steps, last) = run_prepares calls fs (call_all (calls f) app) in (prepare f ∷ steps, last)

-- The starters, and what follows them.
abbrev pub ending : List ℕ → List Step
ending fs =
    map (λ f. start f) fs ++ (build_events ∷ boot_components ∷ register_shutdown ∷ serve ∷ [])

abbrev pub after_prepares : List Step × Application → List Step × Application
after_prepares p = (p.0 ++ ending (starters p.1), p.1)

abbrev pub run_from : (ℕ → List Call) → Application → List Step × Application
run_from calls app =
    let ran = after_prepares (run_prepares calls app.prepares app) in
    (add_middlewares app ++ (install_all app ++ ran.0), ran.1)

-- `Run`; none where an installed function of `InstallOther` returns what `booting` panics on.
unfoldable pub run : (ℕ → List Call) → Application → Option (List Step × Application)
unfolding booting run_prepares
run calls app =
    booting app.other >>= (λ o. some (run_from calls (record (with_installed app) { other = o })))

-- `Db`; none where the type assertion panics.
abbrev pub get_db : Application → Option ℕ
get_db app = app.db
