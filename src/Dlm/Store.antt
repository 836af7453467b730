-- ===== src/Dlm/Store.antt =====
-- Redis as infra/dlm/distributed_lock.go uses it: `SETNX`, `EXPIRE`, `GET` and `DEL`, which are not
-- code of the repository, as an interface with what redis documents of them. Times are nanoseconds.
use dt_go.Base.{
  ℕ, ◌+◌, Bool, false, not, ◌&&◌, Option, none, some, ◌≡◌, refl, String, str_eq, ltb, if◌then◌else◌,
}

-- A value and the time at which it expires.
abbrev pub Entry : Type 0
Entry = Option (String × ℕ)

abbrev pub is_live : ℕ → Entry → Bool
is_live now none = false
is_live now (some (v, d)) = ltb now d

abbrev pub live_value : ℕ → Entry → Option String
live_value now none = none
live_value now (some (v, d)) = if ltb now d then some v else none

abbrev pub renewed : ℕ → ℕ → Entry → Entry
renewed now ttl none = none
renewed now ttl (some (v, d)) = if ltb now d then some (v, now + ttl) else some (v, d)

pub record Redis : Type 1 where
  pub Store : Type 0
  pub entry : Store → String → Entry
  pub set_nx : Store → ℕ → String → String → ℕ → Bool × Store
  pub expire : Store → ℕ → String → ℕ → Store
  pub get : Store → ℕ → String → Option String
  pub del : Store → String → Store
  pub set_nx-reply :
      (s : Store) (now : ℕ) (k v : String) (ttl : ℕ)
      → (set_nx s now k v ttl).0 ≡ not (is_live now (entry s k))
  pub set_nx-entry :
      (s : Store) (now : ℕ) (k v : String) (ttl : ℕ) (j : String)
      → entry (set_nx s now k v ttl).1 j
        ≡ (if str_eq k j && not (is_live now (entry s k)) then some (v, now + ttl) else entry s j)
  pub expire-entry :
      (s : Store) (now : ℕ) (k : String) (ttl : ℕ) (j : String)
      → entry (expire s now k ttl) j
        ≡ (if str_eq k j then renewed now ttl (entry s j) else entry s j)
  pub get-entry : (s : Store) (now : ℕ) (k : String) → get s now k ≡ live_value now (entry s k)
  pub del-entry :
      (s : Store) (k j : String) → entry (del s k) j ≡ (if str_eq k j then none else entry s j)

-- The interface can be met: a function from keys to entries.
abbrev pub Table : Type 0
Table = String → Entry

abbrev pub table_set_nx : Table → ℕ → String → String → ℕ → Bool × Table
table_set_nx s now k v ttl = (
  not (is_live now (s k)),
  λ j. if str_eq k j && not (is_live now (s k)) then some (v, now + ttl) else s j,
)

abbrev pub table : Redis
table = record {
  Store = Table;
  entry = λ s k. s k;
  set_nx = table_set_nx;
  expire = λ s now k ttl j. if str_eq k j then renewed now ttl (s j) else s j;
  get = λ s now k. live_value now (s k);
  del = λ s k j. if str_eq k j then none else s j;
  set_nx-reply = λ s now k v ttl. refl;
  set_nx-entry = λ s now k v ttl j. refl;
  expire-entry = λ s now k ttl j. refl;
  get-entry = λ s now k. refl;
  del-entry = λ s k j. refl;
}
