-- ===== src/Requests/Response.antt =====
-- infra/requests/response.go: the reply of a handler. The object of a reply is known by a number. What
-- encoding/json makes of an object and of an error, and the content types that iris knows, are arguments.
use text.Mathlib.Text.{starts_with}
use dt_go.Base.{ℕ, Bool, true, Option, none, some, [], String, str_eq, if◌then◌else◌, ◌>>=◌}
use dt_go.Base.Int.{ℤ, pos, eq_ℤ}
use dt_go.Base.Bytes.{Bytes}
use dt_go.Errors.{Registry, ErrorResp, new_error, status_code}
use dt_go.Language.{Weights, parse_x_language}
use dt_go.Middleware.Authentication.{internal_err}

-- An error: a pointer to an `ErrorResp`, or any other one, by its text.
pub data GoError : Type 0 where
  error_resp : ErrorResp → GoError
  plain : String → GoError

pub record JsonResponse : Type 0 where
  pub error : Option GoError
  pub code : ℤ
  pub content_type : String
  pub object : ℕ

pub data Body : Type 0 where
  error_body : ErrorResp → Body
  json jsonp xml : ℕ → Body

-- The reply of a request, the two values recorded for the middlewares, and whether it is stopped.
pub record Context : Type 0 where
  pub status : ℤ
  pub code_value : Option ℤ
  pub response_value : Option String
  pub body : Option Body
  pub stopped : Bool

pub record Json : Type 0 where
  pub of_object : ℕ → String
  pub of_error : ErrorResp → String
  pub javascript : String
  pub xml_type : String

abbrev pub status_ok : ℤ
status_ok = pos 200

abbrev pub status_no_content : ℤ
status_no_content = pos 204

module _ (js : Json) where
  -- The reply of an error. `none` is the panic of `StatusCode`, before anything is written.
  abbrev pub reply_error : ErrorResp → Context → Option Context
  reply_error err ctx = status_code err >>= (λ status. some (record {
    status = status;
    code_value = some status;
    response_value = some (js.of_error err);
    body = some (error_body err);
    stopped = true;
  }))

  abbrev pub body_of : String → ℕ → Body
  body_of content_type object =
      if starts_with content_type js.javascript
      then jsonp object
      else if starts_with content_type js.xml_type
      then xml object
      else json object

  abbrev pub reply_object : JsonResponse → Context → Context
  reply_object rep ctx = record ctx {
    response_value = some (js.of_object rep.object);
    body = some (
        body_of (if str_eq rep.content_type "" then "application/json" else rep.content_type)
          rep.object);
  }

  abbrev pub reply_success : JsonResponse → Context → Context
  reply_success rep ctx =
      if eq_ℤ rep.code (pos 0)
      then reply_object rep (record ctx { code_value = some status_ok })
      else if eq_ℤ rep.code status_no_content
      then record ctx { status = rep.code; code_value = some rep.code; response_value = some "" }
      else reply_object rep (record ctx { status = rep.code; code_value = some rep.code })

  module _ (text : Bytes → String) (registry : Registry) (order : Weights → Weights)
      (env : Bytes) where
    abbrev pub resp_of : Bytes → GoError → ErrorResp
    resp_of x_language (error_resp e) = e
    resp_of x_language (plain cause) =
        new_error registry (text env) (text (parse_x_language order env [] x_language)) internal_err
          cause

    -- `Dispatch`, on the x-language header of the request.
    unfoldable pub dispatch : Bytes → JsonResponse → Context → Option Context
    dispatch x_language rep ctx = elim rep.error [
      | some err ↦ reply_error (resp_of x_language err) ctx
      | none ↦ some (reply_success rep ctx)
    ]
