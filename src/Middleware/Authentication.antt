-- ===== src/Middleware/Authentication.antt =====
-- middleware/oauth2.go: the handler that lets a request pass whose access token is active. The answer
-- of the introspection endpoint is an argument, as are the text that a list of bytes is, and whether a
-- worker is in the context, which the handler asserts.
pub mod Verdicts
mod Tests
use dt_go.Base.{
  ℕ, Bool, true, false, not, Option, none, some, List, [], ◌∷◌, ◌++◌, ◌==◌, String, str_eq,
  if◌then◌else◌, ◌>>=◌,
}
use dt_go.Base.Int.{ℤ, pos}
use dt_go.Base.Bytes.{Bytes, eq_bytes}
use dt_go.Errors.{Registry, ErrorResp, new_error, status_code}
use dt_go.Language.{
  Weights, TokenError, token_is_empty, invalid_token, TokenResult, no_token, token,
  parse_bearer_token, parse_x_language,
}

-- `Extra` by key; a value that is no string is none.
abbrev pub Extra : Type 0
Extra = List (String × Option Bytes)

unfoldable pub extra_string : Extra → String → Option Bytes
extra_string [] key = none
extra_string ((k, v) ∷ es) key = if str_eq k key then v else extra_string es key

pub record Introspection : Type 0 where
  pub active : Bool
  pub client_id : Bytes
  pub subject : Bytes
  pub extra : Option Extra

-- What the handler does to the request: the reply it writes, whether it stops it or calls `Next`, and
-- what it adds to the worker's bus, whose keys are written as they are passed.
pub record Context : Type 0 where
  pub reply_status : Option ℤ
  pub reply : Option ErrorResp
  pub stopped : Bool
  pub passed : Bool
  pub bus : List (String × Bytes)

abbrev pub add_bus : String → Bytes → Context → Context
add_bus k v ctx = record ctx { bus = ctx.bus ++ ((k, v) ∷ []) }

abbrev pub unauthorized_err : ℤ
unauthorized_err = pos 401000000

abbrev pub internal_err : ℤ
internal_err = pos 500000000

-- none is the panic of a code of fewer than three digits.
unfoldable pub error_response : ErrorResp → Context → Option Context
error_response err ctx =
    status_code err
    >>= (λ code. some (record ctx { reply_status = some code; reply = some err; stopped = true }))

abbrev or_nothing : Option Bytes → Bytes
or_nothing none = []
or_nothing (some v) = v

abbrev add_string : String → Option Bytes → Context → Context
add_string k none ctx = ctx
add_string k (some v) ctx = add_bus k v ctx

abbrev user : Bytes
user = b'u' ∷ b's' ∷ b'e' ∷ b'r' ∷ []

-- What is added for the extra data: of a client that acts for itself nothing is told.
abbrev pub add_extra : Introspection → Option Extra → Context → Context
add_extra result none ctx = add_bus "account_type" [] ctx
add_extra result (some es) ctx =
    let with_ip = add_string "ip" (extra_string es "login_ip") ctx in
    let of_user = not (eq_bytes result.client_id result.subject) in
    let told = λ (key : String). if of_user then or_nothing (extra_string es key) else [] in
    add_bus "account_type" (if of_user then user else []) (
      add_bus "visitor_type" (told "visitor_type")
        (add_bus "udid" (told "udid") (add_bus "client_type" (told "client_type") with_ip)))

module _ (text : Bytes → String) (registry : Registry) (order : Weights → Weights) (env : Bytes)
    (introspect : Bytes → Introspection × ℕ) (has_worker : Bool) where
  abbrev pub error_of : Bytes → ℤ → String → ErrorResp
  error_of x_language code cause =
      new_error registry (text env) (text (parse_x_language order env [] x_language)) code cause

  abbrev cause_of : TokenError → String
  cause_of token_is_empty = "access token is empty."
  cause_of invalid_token = "invalid token."

  -- The rest of the handler, with what `Next` is called on.
  abbrev pub admit : Bytes → Bytes → Introspection → Context → Context
  admit x_language t result ctx =
      let known = add_bus "client_id" result.client_id (add_bus "user_id" result.subject ctx) in
      let asked =
        add_bus "language" (parse_x_language order env [] x_language)
          (add_bus "bearer_token" t known) in
      record (add_extra result result.extra asked) { passed = true }

  -- The tests of the introspection's answer, `Active` before the error.
  abbrev pub with_answer : Bytes → Bytes → Introspection × ℕ → Context → Option Context
  with_answer x_language t (result, status) ctx =
      if not result.active
      then error_response (error_of x_language unauthorized_err "access token expired.") ctx
      else if not (status == 200)
      then error_response (error_of x_language internal_err "introspection failed.") ctx
      else if not has_worker
      then none
      else some (admit x_language t result ctx)

  abbrev pub with_token : Bytes → TokenResult → Context → Option Context
  with_token x_language (no_token e) ctx =
      error_response (error_of x_language unauthorized_err (cause_of e)) ctx
  with_token x_language (token t) ctx = with_answer x_language t (introspect t) ctx

  -- The handler that `NewAuthentication` returns, on the two headers it reads.
  unfoldable pub authenticate : Bytes → Bytes → Context → Option Context
  unfolding error_response extra_string
  authenticate x_language authorization ctx =
      with_token x_language (parse_bearer_token authorization) ctx
