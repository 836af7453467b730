-- ===== src/Requests/Answered.antt =====
-- infra/requests: the reply that an error of a reading method is given by `Dispatch`.
use dt_go.Base.{ℕ, true, Option, none, some, String, ◌≡◌, if◌then◌else◌}
use dt_go.Base.Int.{pos}
use dt_go.Base.Bytes.{Bytes}
use dt_go.Errors.{Registry}
use dt_go.Language.{Weights}
use dt_go.Requests.Response.{GoError, Context, Json, dispatch}
use dt_go.Requests.Request.{Answers, Bus, accept_language, read_json, read_query, read_form}

-- What is wrong with a request, told from the calls alone.
pub data Fault : Type 0 where
  fine bad_input internal : Fault

pub data Method : Type 0 where
  json_body query form : Method

abbrev fault_of_rest : Option String → Fault
fault_of_rest none = fine
fault_of_rest (some e) = bad_input

abbrev pub fault : Method → Answers → Fault
fault json_body ans = elim ans.read_all [
  | some e ↦ internal
  | none ↦ elim ans.unmarshal [ some e ↦ bad_input | none ↦ fault_of_rest ans.validate ]
]
fault query ans = elim ans.read_query_err [ some e ↦ internal | none ↦ fault_of_rest ans.validate ]
fault form ans = elim ans.read_form_err [
  | none ↦ fault_of_rest ans.validate
  | some p ↦ if p.0 then fault_of_rest ans.validate else bad_input
]

module _ (js : Json) (text : Bytes → String) (registry : Registry) (order : Weights → Weights)
    (env x_language asked : Bytes) where
  abbrev pub read : Method → Answers → Bus → Option GoError × Bus
  read json_body = read_json text registry order env x_language
  read query = read_query text registry order env x_language
  read form = read_form text registry order env x_language

  -- The reply to a handler that returns the error; `asked` is the header of the request, where the
  -- reading methods look at the bus.
  abbrev pub answer : Option GoError → Context → Option Context
  answer err ctx =
      dispatch js text registry order env asked
        (record { error = err; code = pos 0; content_type = ""; object = 0 }) ctx

  -- The request is stopped with this status, which is recorded too.
  pub record StoppedWith (status : ℕ) (r : Context) : Type 0 where
    pub status_is : r.status ≡ pos status
    pub recorded : r.code_value ≡ some (pos status)
    pub stops : r.stopped ≡ true

  abbrev pub Stops : ℕ → Option GoError → Context → Type 0
  Stops status err ctx = (r : Context) × (answer err ctx ≡ some r) × StoppedWith status r

  abbrev pub Outcome : Fault → Bus → Context → Option GoError × Bus → Type 0
  Outcome fine bus ctx (err, told) = (err ≡ none) × (told ≡ bus)
  Outcome bad_input bus ctx (err, told) =
      Stops 400 err ctx × (told ≡ (accept_language text registry order env x_language bus).1)
  Outcome internal bus ctx (err, told) = Stops 500 err ctx × (told ≡ bus)
