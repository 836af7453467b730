-- ===== src/Middleware/Authentication/Tests.antt =====
-- The theorem about middleware/oauth2.go at a concrete token.
use dt_go.Base.{ℕ, true, false, none, some, [], ◌∷◌, ◌≡◌, refl, String}
use dt_go.Base.Bytes.{Bytes}
use dt_go.Language.{Weights, parse_bearer_token, token}
use dt_go.Middleware.Authentication.{Introspection, Context, authenticate}
use dt_go.Middleware.Authentication.Verdicts.{Verdict, authenticate-Verdict}

abbrev header : Bytes
header = b'b' ∷ b'e' ∷ b'a' ∷ b'r' ∷ b'e' ∷ b'r' ∷ b' ' ∷ b't' ∷ []

abbrev context : Context
context = record { reply_status = none; reply = none; stopped = false; passed = false; bus = [] }

abbrev active_token : Introspection
active_token = record { active = true; client_id = b'c' ∷ []; subject = b's' ∷ []; extra = none }

abbrev introspect : Bytes → Introspection × ℕ
introspect t = (active_token, 200)

abbrev text : Bytes → String
text s = "zh-CN"

abbrev as_it_is : Weights → Weights
as_it_is m = m

has_token : parse_bearer_token header ≡ token (b't' ∷ [])
unfolding parse_bearer_token
has_token = refl

authenticate-Verdict_example :
    (r : Context) × (authenticate text [] as_it_is [] introspect true [] header context ≡ some r)
    × Verdict text [] as_it_is [] introspect header context r
authenticate-Verdict_example = authenticate-Verdict text [] as_it_is [] introspect [] header context
