-- ===== src/Dhttp/Cookies/Tests.antt =====
-- The theorems about the cookies of infra/dhttp/http_response.go at concrete lines.
use dt_go.Base.{ℕ, Bool, ◌&&◌, ◌||◌, List, [], ◌∷◌, map, All, ◌≡◌, refl, Option, none, some, leb}
use dt_go.Base.Bytes.{Bytes}
use dt_go.Base.Int.{negsuc}
use dt_go.Dhttp.Cookies.{read_set_cookies, read_line, atoi, Cookie, strict_mode}
use dt_go.Dhttp.Cookies.Printed.{Attribute, with_path, with_secure, with_strict}

abbrev is_letter : ℕ → Bool
is_letter b = (leb b'a' b && leb b b'z') || (leb b'A' b && leb b b'Z')

abbrev no_time : Bytes → Bytes → Option ℕ
no_time layout text = none

abbrev session : Bytes × Bytes × List Attribute
session = (
  b's' ∷ b'i' ∷ b'd' ∷ [],
  b'4' ∷ b'2' ∷ [],
  with_path (b'/' ∷ []) ∷ with_secure ∷ with_strict ∷ [],
)

-- `a="1"; max-age=0; expires=x`, a line with no name, and an empty one
abbrev lines : List Bytes
lines =
    (b'a' ∷ b'=' ∷ b'"' ∷ b'1' ∷ b'"' ∷ b';' ∷ b' ' ∷ b'm' ∷ b'a' ∷ b'x' ∷ b'-' ∷ b'a' ∷ b'g' ∷ b'e'
      ∷ b'=' ∷ b'0' ∷ b';' ∷ b'e' ∷ b'x' ∷ b'p' ∷ b'i' ∷ b'r' ∷ b'e' ∷ b's' ∷ b'=' ∷ b'x' ∷ [])
    ∷ (b'=' ∷ b'1' ∷ [])
    ∷ []
    ∷ []

ages : map (λ c. c.max_age) (read_set_cookies no_time is_letter lines) ≡ negsuc 0 ∷ []
unfolding read_set_cookies dt_go.Base.Bytes.trim_left dt_go.Base.Bytes.trim_right
ages = refl

unparsed_of :
    map (λ c. c.unparsed) (read_set_cookies no_time is_letter lines)
    ≡ ((b'e' ∷ b'x' ∷ b'p' ∷ b'i' ∷ b'r' ∷ b'e' ∷ b's' ∷ b'=' ∷ b'x' ∷ []) ∷ []) ∷ []
unfolding read_set_cookies dt_go.Base.Bytes.trim_left dt_go.Base.Bytes.trim_right
unparsed_of = refl

atoi_minus : atoi (b'-' ∷ b'1' ∷ b'2' ∷ []) ≡ some (negsuc 11)
unfolding atoi
atoi_minus = refl
