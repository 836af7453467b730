-- ===== src/Internal/Headers.antt =====
-- internal/message_bus.go, the http requests of internal/infra.go, and the setters of
-- infra/dhttp/http_request.go that change a header. A header is a Go map, which requests and the bus
-- may share: it has an address, and the process holds the map at each address.
-- `http.CanonicalHeaderKey` is an argument.
pub mod Shared
pub mod Apart
mod Tests
use dt_go.Base.{
  ℕ, suc, ◌+◌, Bool, true, false, not, Option, none, some, List, [], ◌∷◌, ◌++◌, ◌==◌, String,
  str_eq, if◌then◌else◌, keep,
}

-- Each value with its key; `Add` puts a value behind those that are there.
abbrev pub Header : Type 0
Header = List (String × String)

-- The maps by address, and the first address that is free.
pub record Process : Type 0 where
  pub headers : ℕ → Header
  pub next : ℕ

abbrev pub store : ℕ → Header → Process → Process
store a h p = record p { headers = λ b. if a == b then h else p.headers b }

abbrev pub allocate : Header → Process → ℕ × Process
allocate h p = (p.next, record (store p.next h p) { next = suc p.next })

abbrev pub Worker : Type 0
Worker = ℕ

-- `newBus`: a copy of the header of the incoming request. A worker is known by the address of its bus.
abbrev pub new_bus : Header → Process → Worker × Process
new_bus head p = allocate head p

pub record Infra : Type 0 where
  pub worker : Option Worker
  pub single : Bool

unfoldable pub begin_request : Infra → Worker → Infra
begin_request infra rt = if infra.single then infra else record infra { worker = some rt }

-- A request of infra/dhttp, by the address of its header.
pub record Request : Type 0 where
  pub raw_url : String
  pub header_at : ℕ

abbrev pub new_request : String → Process → Request × Process
new_request url p = let (a, q) = allocate [] p in (record { raw_url = url; header_at = a }, q)

abbrev pub with_bus : Request → Option Worker → Request
with_bus req none = req
with_bus req (some w) = record req { header_at = w }

abbrev pub transfers : Option Bool → Bool
transfers none = true
transfers (some b) = b

-- `NewHTTPRequest`, `NewOAuth2Request` and `NewH2CRequest`, which differ in the client: the header of
-- the bus itself is set in the request.
unfoldable pub new_http_request : Infra → String → Option Bool → Process → Request × Process
new_http_request infra url transfer_bus p =
    let (req, q) = new_request url p in
    if not (transfers transfer_bus) then (req, q) else (with_bus req infra.worker, q)

abbrev pub sent_header : Process → Request → Header
sent_header p req = p.headers req.header_at

unfoldable pub get_first : Header → String → String
get_first [] key = ""
get_first ((k, v) ∷ h) key = if str_eq k key then v else get_first h key

module _ (canonical : String → String) where
  abbrev pub header_add : String → String → Header → Header
  header_add key value h = h ++ ((canonical key, value) ∷ [])

  unfoldable pub header_del : String → Header → Header
  header_del key h = keep (λ entry. not (str_eq entry.0 (canonical key))) h

  unfoldable pub header_set : String → String → Header → Header
  unfolding header_del
  header_set key value h = header_add key value (header_del key h)

  -- The calls that change a header, of a request or of a worker's bus.
  pub data Action : Type 0 where
    add_header : Request → String → String → Action
    set_body set_json_body : Request → Action
    bus_add bus_set : Worker → String → String → Action
    bus_del : Worker → String → Action

  abbrev pub address : Action → ℕ
  address (add_header req k v) = req.header_at
  address (set_body req) = req.header_at
  address (set_json_body req) = req.header_at
  address (bus_add w k v) = w
  address (bus_set w k v) = w
  address (bus_del w k) = w

  abbrev pub change : Action → Header → Header
  change (add_header req k v) h = header_add k v h
  change (set_body req) h = header_set "Content-Type" "application/x-www-form-urlencoded" h
  change (set_json_body req) h = header_set "Content-Type" "application/json" h
  change (bus_add w k v) h = header_add k v h
  change (bus_set w k v) h = header_set k v h
  change (bus_del w k) h = header_del k h

  unfoldable pub act : Action → Process → Process
  unfolding header_set header_del
  act a p = store (address a) (change a (p.headers (address a))) p

  unfoldable pub act_all : List Action → Process → Process
  unfolding act
  act_all [] p = p
  act_all (a ∷ rest) p = act_all rest (act a p)

  -- `Bus.Get`
  abbrev pub bus_get : Worker → String → Process → String
  bus_get w key p = get_first (p.headers w) (canonical key)
