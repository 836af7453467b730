-- ===== src/Dhttp/Cookies/RoundTrip.antt =====
-- infra/dhttp/http_response.go reads back the cookies that are printed as net/http prints them.
use dt_go.Base.{List, ◌∷◌}
use dt_go.Base.Bytes.{Bytes}
use dt_go.Dhttp.Cookies.Printed.{Attribute, attribute_text}

abbrev spaced : Attribute → Bytes
spaced a = b' ' ∷ attribute_text a
