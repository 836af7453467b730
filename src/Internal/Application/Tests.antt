-- ===== src/Internal/Application/Tests.antt =====
-- The theorem about `Run` of internal/app.go at an application with a starter of each kind, and a look
-- at what `booting` of internal/other.go has stored.
use dt_go.Base.{ℕ, suc, true, none, some, List, [], ◌∷◌, ◌≡◌, ◌>>=◌, refl}
use dt_go.Base.Maps.{find, put}
use dt_go.Internal.Application.{
  Value, struct_type, elem_type, eq_type, booting, boot_all, get, Application, Call, start_call,
  inject_controller,
}

abbrev client : Value
client = record { type = elem_type (struct_type "search.Client"); id = 8 }

abbrev app : Application
app = record {
  private = true;
  middleware = 4 ∷ [];
  controller_dep = [];
  db_install = some 7;
  db = none;
  table_install = none;
  tables = none;
  cache_install = some 9;
  other = record { installs = client ∷ []; pool = [] };
  prepares = 1 ∷ 2 ∷ [];
  private_starters = 20 ∷ [];
  public_starters = 30 ∷ [];
}

abbrev calls : ℕ → List Call
calls n = inject_controller n ∷ start_call (suc n) ∷ []

other_got : (booting app.other >>= get (elem_type (struct_type "search.Client"))) ≡ some client
unfolding booting boot_all put find get eq_type
other_got = refl
