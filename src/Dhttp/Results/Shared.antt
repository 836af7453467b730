-- ===== src/Dhttp/Results/Shared.antt =====
-- infra/dhttp/http_request.go: a call that joins another's flight gets the text and the response that
-- the call which runs the request gets.
use dt_go.Base.{
  Bool, true, false, Option, none, some, List, str_eq, ◌≡◌, refl, ap, Bool-cases, inl, inr,
}
use dt_go.Dhttp.Request.{Response, HttpRequest, Net}
use dt_go.Dhttp.Chain.{Handler}
use dt_go.Dhttp.Results.{
  leads, joins, flight_data, has_error, string_of, to_string, next_all, singleflight_do, after_lead,
  take_data,
}

-- What the caller sees of a result: the text and the response.
abbrev pub seen {ℓ} : {A : Type ℓ} → A × HttpRequest → A × Response
seen (a, r) = (a, r.response)

abbrev pub seen_of {ℓ} : {A : Type ℓ} → Option (A × HttpRequest) → Option (A × Response)
seen_of none = none
seen_of (some p) = some (seen p)

string_of_lead :
    (shared : Bool) (r q : HttpRequest)
    → seen (string_of (after_lead shared r)) ≡ seen (string_of (take_data (flight_data r) q))
unfolding flight_data
string_of_lead true r q = refl
string_of_lead false r q = elim (Bool-cases (has_error r.response)) [
  | inl e ↦ rw e refl
  | inr e ↦ rw e refl
]

module _ (net : Net) (middlewares : List Handler) where
  -- If the request that a call with a singleflight key runs comes back as r, then that call, whether
  -- others wait for it or not, and every call that gets r's data read the same text (no text where
  -- there is an error) and the same response.
  pub to_string-joins :
      (req q r : HttpRequest) (shared : Bool)
      → str_eq req.singleflight_key "" ≡ false
      → str_eq q.singleflight_key "" ≡ false
      → next_all net middlewares req ≡ some r
      → seen_of (to_string net middlewares req (leads shared))
        ≡ seen_of (to_string net middlewares q (joins (flight_data r)))
  unfolding singleflight_do
  to_string-joins req q r shared k l e = rw (k, l, e) (ap some (string_of_lead shared r q))
