-- ===== src/Dhttp/Results.antt =====
-- infra/dhttp/http_request.go: `singleflightDo` and the methods that run a request and give its
-- body as bytes, text, JSON, XML or a Boolean. The decoders are arguments.
pub mod Shared
pub mod Bodies
mod Tests
use dt_go.Base.{
  ℕ, Bool, true, false, not, Option, none, some, List, [], ◌∷◌, String, str_eq, length,
  if◌then◌else◌, ◌>>=◌, ◌⊎◌, inl, inr, ◌||◌,
}
use dt_go.Base.Bytes.{Bytes, eq_bytes}
use dt_go.Dhttp.Request.{Error, Response, HttpRequest, Net}
use dt_go.Dhttp.Chain.{Handler, next}

pub record SingleflightData : Type 0 where
  pub res : Response
  pub body : Bytes

-- What `httpclientGroup.Do` makes of a call: it runs the function itself, and says whether others
-- wait for the result, or it gets the data of the call that runs.
pub data Flight : Type 0 where
  leads : Bool → Flight
  joins : SingleflightData → Flight

abbrev pub has_error : Response → Bool
has_error res = elim res.error [ none ↦ false | some e ↦ true ]

unfoldable pub flight_data : HttpRequest → SingleflightData
flight_data r = record {
  res = r.response;
  body = if has_error r.response then [] else r.respone_body;
}

abbrev pub take_data : SingleflightData → HttpRequest → Bytes × HttpRequest
take_data d req = (d.body, record req { response = d.res })

abbrev pub after_next : HttpRequest → Bytes × HttpRequest
after_next r = (if has_error r.response then [] else r.respone_body, r)

abbrev pub after_lead : Bool → HttpRequest → Bytes × HttpRequest
after_lead shared r = if not shared then (r.respone_body, r) else take_data (flight_data r) r

module _ (net : Net) (middlewares : List Handler) where
  -- `Next` from the request's first middleware; the fuel is enough by `next-Returns`.
  abbrev pub next_all : HttpRequest → Option HttpRequest
  next_all req = next net middlewares (length middlewares) req

  abbrev pub run_flight : HttpRequest → Flight → Option (Bytes × HttpRequest)
  run_flight req (leads shared) = do r ← next_all req; some (after_lead shared r)
  run_flight req (joins d) = some (take_data d req)

  unfoldable pub singleflight_do : HttpRequest → Flight → Option (Bytes × HttpRequest)
  unfolding flight_data
  singleflight_do req flight =
      if str_eq req.singleflight_key ""
      then next_all req >>= (λ r. some (after_next r))
      else run_flight req flight

-- The value is made from the body, unless the request has an error.
abbrev pub set_error : HttpRequest → Option Error → HttpRequest
set_error r e = record r { response = record r.response { error = e } }

abbrev pub string_of : Bytes × HttpRequest → Bytes × HttpRequest
string_of (body, r) = (if has_error r.response then [] else body, r)

-- `strconv.ParseBool`
abbrev is_one_of : List Bytes → Bytes → Bool
is_one_of [] s = false
is_one_of (w ∷ ws) s = eq_bytes s w || is_one_of ws s

abbrev true_words : List Bytes
true_words =
    (b'1' ∷ [])
    ∷ (b't' ∷ [])
    ∷ (b'T' ∷ [])
    ∷ (b'T' ∷ b'R' ∷ b'U' ∷ b'E' ∷ [])
    ∷ (b't' ∷ b'r' ∷ b'u' ∷ b'e' ∷ [])
    ∷ (b'T' ∷ b'r' ∷ b'u' ∷ b'e' ∷ [])
    ∷ []

abbrev false_words : List Bytes
false_words =
    (b'0' ∷ [])
    ∷ (b'f' ∷ [])
    ∷ (b'F' ∷ [])
    ∷ (b'F' ∷ b'A' ∷ b'L' ∷ b'S' ∷ b'E' ∷ [])
    ∷ (b'f' ∷ b'a' ∷ b'l' ∷ b's' ∷ b'e' ∷ [])
    ∷ (b'F' ∷ b'a' ∷ b'l' ∷ b's' ∷ b'e' ∷ [])
    ∷ []

unfoldable pub parse_bool : Bytes → Option Bool
parse_bool s =
    if is_one_of true_words s
    then some true
    else if is_one_of false_words s
    then some false
    else none

abbrev or_false : Option Bool → Bool
or_false none = false
or_false (some b) = b

abbrev pub bool_of : Bytes × HttpRequest → Bool × HttpRequest
bool_of (body, r) = (if has_error r.response then false else or_false (parse_bool body), r)

module _ {V : Type 0} (unmarshal : Bytes → Error ⊎ V) (with_body : Error → Bytes → Error) where
  abbrev pub unmarshalled : HttpRequest → Bytes → Error ⊎ V → Option V × HttpRequest
  unmarshalled r body (inl e) = (none, set_error r (some (with_body e body)))
  unmarshalled r body (inr v) = (some v, set_error r none)

  abbrev pub value_of : Bytes × HttpRequest → Option V × HttpRequest
  value_of (body, r) =
      if has_error r.response then (none, r) else unmarshalled r body (unmarshal body)

module _ (net : Net) (middlewares : List Handler) where
  abbrev pub to_bytes : HttpRequest → Flight → Option (Bytes × HttpRequest)
  to_bytes req flight = singleflight_do net middlewares req flight

  abbrev pub to_string : HttpRequest → Flight → Option (Bytes × HttpRequest)
  to_string req flight = do p ← singleflight_do net middlewares req flight; some (string_of p)

  abbrev pub to_bool : HttpRequest → Flight → Option (Bool × HttpRequest)
  to_bool req flight = do p ← singleflight_do net middlewares req flight; some (bool_of p)

  -- `ToJSON` with an error text that names the body, `ToXML` with the error as it is.
  abbrev pub to_json :
      {V : Type 0}
      → (Bytes → Error ⊎ V)
      → (Error → Bytes → Error)
      → HttpRequest
      → Flight
      → Option (Option V × HttpRequest)
  to_json unmarshal with_body req flight = do
    p ← singleflight_do net middlewares req flight
    some (value_of unmarshal with_body p)

  abbrev pub to_xml :
      {V : Type 0} → (Bytes → Error ⊎ V) → HttpRequest → Flight → Option (Option V × HttpRequest)
  to_xml unmarshal req flight = to_json unmarshal (λ e body. e) req flight
