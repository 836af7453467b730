-- ===== src/Requests/Request.antt =====
-- infra/requests/request.go: the parts of a request that a handler reads into an object. The errors of
-- the body, the decoders and the validator, which are other packages, are arguments.
use dt_go.Base.{Bool, true, false, Option, none, some, List, [], ◌∷◌, ◌++◌, String}
use dt_go.Base.Int.{ℤ, pos}
use dt_go.Base.Bytes.{Bytes}
use dt_go.Errors.{Registry, new_error}
use dt_go.Language.{Weights, parse_x_language}
use dt_go.Requests.Response.{GoError, error_resp, plain}

-- The text of the error of each call, none where it succeeds; with that of `ReadForm`, whether
-- `IsErrPath` holds of it.
pub record Answers : Type 0 where
  pub read_all : Option String
  pub unmarshal : Option String
  pub read_query_err : Option String
  pub read_form_err : Option (Bool × String)
  pub validate : Option String

-- What has been added to the worker's bus, in order.
abbrev pub Bus : Type 0
Bus = List (String × Bytes)

abbrev pub bad_request_err : ℤ
bad_request_err = pos 400000000

module _ (text : Bytes → String) (registry : Registry) (order : Weights → Weights) (env : Bytes)
    (x_language : Bytes) where
  abbrev pub accept_language : Bus → Bytes × Bus
  accept_language bus =
      let language = parse_x_language order env [] x_language in
      (language, bus ++ ("language", language) ∷ [])

  abbrev pub bad_request : String → Bus → Option GoError × Bus
  bad_request cause bus =
      let (language, told) = accept_language bus in
      (
        some (error_resp (new_error registry (text env) (text language) bad_request_err cause)),
        told,
      )

  abbrev pub validated : Answers → Bus → Option GoError × Bus
  validated ans bus = elim ans.validate [ some e ↦ bad_request e bus | none ↦ (none, bus) ]

  unfoldable pub read_json : Answers → Bus → Option GoError × Bus
  read_json ans bus = elim ans.read_all [
    | some e ↦ (some (plain e), bus)
    | none ↦ elim ans.unmarshal [ some e ↦ bad_request e bus | none ↦ validated ans bus ]
  ]

  unfoldable pub read_query : Answers → Bus → Option GoError × Bus
  read_query ans bus = elim ans.read_query_err [
    | some e ↦ (some (plain e), bus)
    | none ↦ validated ans bus
  ]

  -- An unknown path in the form is no error.
  abbrev pub after_form : Option (Bool × String) → Answers → Bus → Option GoError × Bus
  after_form none ans bus = validated ans bus
  after_form (some (true, e)) ans bus = validated ans bus
  after_form (some (false, e)) ans bus = bad_request e bus

  unfoldable pub read_form : Answers → Bus → Option GoError × Bus
  read_form ans bus = after_form ans.read_form_err ans bus
