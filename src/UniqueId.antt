-- ===== src/UniqueId.antt =====
-- infra/uniqueid/sonyflake.go: ids from sonyflake, which is code of another project. A generator is
-- made of a machine and gives an id at a time, with the generator that it is then.
pub mod Repeats
mod Tests
use dt_go.Base.{
  ℕ, ◌+◌, ◌*◌, Bool, true, false, ◌||◌, Option, none, some, List, [], ◌∷◌, ◌==◌, if◌then◌else◌,
}

-- The bytes of a Go string.
abbrev pub Text : Type 0
Text = List ℕ

abbrev pub dot : ℕ
dot = 46

abbrev pub colon : ℕ
colon = 58

pub data IdError : Type 0 where
  invalid_ip create_error next_error : IdError

-- `NewSonyflake`, which is nil where it fails, and `NextID` at a time.
pub record Sonyflake : Type 1 where
  pub Generator : Type 0
  pub new_sonyflake : ℕ → Option Generator
  pub next_id : Generator → ℕ → Option ℕ × Generator

-- The 16 bytes of an address; `net.ParseIP` is the standard library's.
pub record Address : Type 0 where
  pub byte14 : ℕ
  pub byte15 : ℕ

pub record SonyflakerImpl : Type 0 where
  pub pod_ip : Text

-- `BeginRequest`, with the value of POD_IP, which is empty where it is not set.
unfoldable pub begin_request : Text → Text → SonyflakerImpl → SonyflakerImpl
begin_request local_host [] s = record { pod_ip = local_host }
begin_request local_host (c ∷ cs) s = record { pod_ip = c ∷ cs }

unfoldable pub has_separator : Text → Bool
has_separator [] = false
has_separator (c ∷ cs) =
    let rest = has_separator cs in if (c == dot) || (c == colon) then true else rest

-- `SetPodIP`: a text with neither a dot nor a colon is ignored.
unfoldable pub set_pod_ip : Text → SonyflakerImpl → SonyflakerImpl
unfolding has_separator
set_pod_ip ip s = if has_separator ip then record { pod_ip = ip } else s

-- `uint16(ip[14])<<8 + uint16(ip[15])`
unfoldable pub machine_id : Address → ℕ
machine_id ip = ip.byte14 * 256 + ip.byte15

-- `NextID` returns an id, or an error.
pub data IdResult : Type 0 where
  id : ℕ → IdResult
  fails : IdError → IdResult

module _ (f : Sonyflake) (parse_ip : Text → Option Address) where
  -- `MachineID` of the settings, which `NewSonyflake` calls: without an address it makes nothing.
  unfoldable pub of_address : Option Address → Option f.Generator
  unfolding machine_id
  of_address none = none
  of_address (some ip) = f.new_sonyflake (machine_id ip)

  unfoldable pub create : SonyflakerImpl → Option f.Generator
  unfolding of_address
  create s = of_address (parse_ip s.pod_ip)

  abbrev pub id_result : Option ℕ → IdResult
  id_result none = fails next_error
  id_result (some n) = id n

  -- `NextID` with what `create` has made, which is kept in the variable `sf`.
  unfoldable pub ask_new : Option f.Generator → ℕ → IdResult × Option f.Generator
  ask_new none now = (fails create_error, none)
  ask_new (some g) now = let (n, g') = f.next_id g now in (id_result n, some g')

  -- `NextID` at a time; the generator in `sf` is replaced and never asked again.
  unfoldable pub next_id : SonyflakerImpl → ℕ → Option f.Generator → IdResult × Option f.Generator
  unfolding create ask_new
  next_id s now sf = ask_new (create s) now

  -- Calls one after the other, each with its component and its time.
  unfoldable pub next_ids : List (SonyflakerImpl × ℕ) → Option f.Generator → List IdResult
  unfolding next_id
  next_ids [] sf = []
  next_ids ((s, now) ∷ calls) sf = let (r, sf') = next_id s now sf in r ∷ next_ids calls sf'
