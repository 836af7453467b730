-- ===== src/Dhttp/Cookies/Printed.antt =====
-- A cookie as net/http prints one, `name=value` and each attribute behind a semicolon and a space,
-- and what its bytes are for infra/dhttp/http_response.go.
use dt_go.Base.{
  ℕ, Bool, true, false, not, ◌&&◌, List, [], ◌∷◌, ◌++◌, ◌≡◌, refl, some, ◌==◌, arith, All,
}
use dt_go.Base.Bytes.{Bytes, is_empty, all_bytes, Lacks, Spaceless}
use dt_go.Dhttp.Cookies.{
  Cookie, new_cookie, lax_mode, strict_mode, none_mode, valid_cookie_value_byte, unquote,
  parse_cookie_value, is_cookie_name_valid,
}
use dt_go.Dhttp.Cookies.Sound.{IsValid}

pub data Attribute : Type 0 where
  with_path with_domain : Bytes → Attribute
  with_secure with_http_only with_lax with_strict with_none : Attribute

abbrev pub attribute_text : Attribute → Bytes
attribute_text (with_path p) = b'P' ∷ b'a' ∷ b't' ∷ b'h' ∷ b'=' ∷ p
attribute_text (with_domain d) = b'D' ∷ b'o' ∷ b'm' ∷ b'a' ∷ b'i' ∷ b'n' ∷ b'=' ∷ d
attribute_text with_secure = b'S' ∷ b'e' ∷ b'c' ∷ b'u' ∷ b'r' ∷ b'e' ∷ []
attribute_text with_http_only = b'H' ∷ b't' ∷ b't' ∷ b'p' ∷ b'O' ∷ b'n' ∷ b'l' ∷ b'y' ∷ []
attribute_text with_lax =
    b'S' ∷ b'a' ∷ b'm' ∷ b'e' ∷ b'S' ∷ b'i' ∷ b't' ∷ b'e' ∷ b'=' ∷ b'L' ∷ b'a' ∷ b'x' ∷ []
attribute_text with_strict =
    b'S' ∷ b'a' ∷ b'm' ∷ b'e' ∷ b'S' ∷ b'i' ∷ b't' ∷ b'e' ∷ b'=' ∷ b'S' ∷ b't' ∷ b'r' ∷ b'i' ∷ b'c'
    ∷ b't' ∷ []
attribute_text with_none =
    b'S' ∷ b'a' ∷ b'm' ∷ b'e' ∷ b'S' ∷ b'i' ∷ b't' ∷ b'e' ∷ b'=' ∷ b'N' ∷ b'o' ∷ b'n' ∷ b'e' ∷ []

abbrev pub attributes_text : List Attribute → Bytes
attributes_text [] = []
attributes_text (a ∷ attrs) = b';' ∷ b' ' ∷ attribute_text a ++ attributes_text attrs

abbrev pub cookie_text : Bytes → Bytes → List Attribute → Bytes
cookie_text name value attrs = (name ++ (b'=' ∷ value)) ++ attributes_text attrs

-- What the attributes say of the cookie; of two that say the same thing the last one counts.
abbrev pub apply : Cookie → Attribute → Cookie
apply c (with_path p) = record c { path = p }
apply c (with_domain d) = record c { domain = d }
apply c with_secure = record c { secure = true }
apply c with_http_only = record c { http_only = true }
apply c with_lax = record c { same_site = lax_mode }
apply c with_strict = record c { same_site = strict_mode }
apply c with_none = record c { same_site = none_mode }

abbrev pub apply_all : Cookie → List Attribute → Cookie
apply_all c [] = c
apply_all c (a ∷ attrs) = apply_all (apply c a) attrs

-- A byte that a value may hold, and no space.
unfoldable pub is_visible : ℕ → Bool
unfolding valid_cookie_value_byte
is_visible b = valid_cookie_value_byte b && not (b == b' ')

abbrev pub IsVisible : Bytes → Type 0
IsVisible s = all_bytes is_visible s ≡ true

abbrev pub IsPlain : Attribute → Type 0
IsPlain (with_path p) = IsVisible p
IsPlain (with_domain d) = IsVisible d
IsPlain a = Unit

abbrev pub IsPrintable : (ℕ → Bool) → Bytes × Bytes × List Attribute → Type 0
IsPrintable is_token (name, value, attrs) =
    (is_cookie_name_valid is_token name ≡ true) × IsVisible value × All IsPlain attrs

abbrev pub line_of : Bytes × Bytes × List Attribute → Bytes
line_of (name, value, attrs) = cookie_text name value attrs

abbrev pub cookie_of : Bytes × Bytes × List Attribute → Cookie
cookie_of (name, value, attrs) =
    apply_all (new_cookie name value (cookie_text name value attrs)) attrs

pub IsVisible-IsValid : (s : Bytes) → IsVisible s → IsValid s
unfolding is_visible valid_cookie_value_byte
IsVisible-IsValid [] h = refl
IsVisible-IsValid (b ∷ bs) h = ground (arith, IsVisible-IsValid bs)

pub IsVisible-Spaceless : (s : Bytes) → IsVisible s → Spaceless s
unfolding is_visible valid_cookie_value_byte
IsVisible-Spaceless [] h = refl
IsVisible-Spaceless (b ∷ bs) h = ground (arith, IsVisible-Spaceless bs)

pub IsVisible-Lacks : (s : Bytes) → IsVisible s → Lacks b';' s
unfolding is_visible valid_cookie_value_byte
IsVisible-Lacks [] h = refl
IsVisible-Lacks (b ∷ bs) h = ground (arith, IsVisible-Lacks bs)

pub unquote-IsVisible : (s : Bytes) → IsVisible s → unquote s ≡ s
unfolding unquote is_visible valid_cookie_value_byte
unquote-IsVisible [] h = refl
unquote-IsVisible (b ∷ []) h = refl
unquote-IsVisible (b ∷ c ∷ cs) h = ground arith

pub parse_cookie_value-IsVisible :
    (s : Bytes) (quotes : Bool) → IsVisible s → parse_cookie_value s quotes ≡ some s
unfolding parse_cookie_value
parse_cookie_value-IsVisible s true h = rw (unquote-IsVisible s h, IsVisible-IsValid s h)
parse_cookie_value-IsVisible s false h = rw (IsVisible-IsValid s h)

pub attribute_text-IsVisible : (a : Attribute) → IsPlain a → IsVisible (attribute_text a)
unfolding is_visible valid_cookie_value_byte
attribute_text-IsVisible (with_path p) h = h
attribute_text-IsVisible (with_domain d) h = h
attribute_text-IsVisible with_secure h = refl
attribute_text-IsVisible with_http_only h = refl
attribute_text-IsVisible with_lax h = refl
attribute_text-IsVisible with_strict h = refl
attribute_text-IsVisible with_none h = refl

pub attribute_text-nonempty : (a : Attribute) → is_empty (attribute_text a) ≡ false
attribute_text-nonempty (with_path p) = refl
attribute_text-nonempty (with_domain d) = refl
attribute_text-nonempty with_secure = refl
attribute_text-nonempty with_http_only = refl
attribute_text-nonempty with_lax = refl
attribute_text-nonempty with_strict = refl
attribute_text-nonempty with_none = refl
