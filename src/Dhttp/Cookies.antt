-- ===== src/Dhttp/Cookies.antt =====
-- infra/dhttp/http_response.go, the cookies of a response: `readSetCookies` and what it calls. Texts
-- are bytes; a space and a capital letter are those of ASCII. `httpguts.IsTokenRune` and
-- `time.Parse` are arguments; a byte beyond ASCII belongs to no token.
pub mod Sound
pub mod Printed
pub mod RoundTrip
mod Tests
use dt_go.Base.{
  ℕ, ◌+◌, ◌*◌, ◌-◌, ◌^◌, Bool, true, false, not, ◌&&◌, ◌||◌, Option, none, some, List, [], ◌∷◌,
  ◌++◌, ◌==◌, leb, ltb, if◌then◌else◌,
}
use dt_go.Base.Bytes.{Bytes, eq_bytes, is_empty, all_bytes, split, cut, trim_space, to_lower}
use dt_go.Base.Int.{ℤ, pos, negsuc, eq_ℤ, leb_ℤ}

pub data SameSite : Type 0 where
  unset default_mode lax_mode strict_mode none_mode : SameSite

-- `Expires` is none for the zero time, otherwise what `time.Parse` has read.
pub record Cookie : Type 0 where
  pub name : Bytes
  pub value : Bytes
  pub raw : Bytes
  pub unparsed : List Bytes
  pub same_site : SameSite
  pub secure : Bool
  pub http_only : Bool
  pub domain : Bytes
  pub path : Bytes
  pub max_age : ℤ
  pub raw_expires : Bytes
  pub expires : Option ℕ

abbrev pub new_cookie : Bytes → Bytes → Bytes → Cookie
new_cookie n v line = record {
  name = n;
  value = v;
  raw = line;
  unparsed = [];
  same_site = unset;
  secure = false;
  http_only = false;
  domain = [];
  path = [];
  max_age = pos 0;
  raw_expires = [];
  expires = none;
}

unfoldable pub valid_cookie_value_byte : ℕ → Bool
valid_cookie_value_byte b =
    leb 0x20 b && ltb b 0x7f && not (b == b'"') && not (b == b';') && not (b == b'\\')

-- The bytes before the last one, and the last one.
unfoldable pub init_last : ℕ → Bytes → Bytes × ℕ
init_last b [] = ([], b)
init_last b (c ∷ cs) = let (i, l) = init_last c cs in (b ∷ i, l)

-- The quotes around a value are taken off.
unfoldable pub unquote : Bytes → Bytes
unfolding init_last
unquote [] = []
unquote (b ∷ []) = b ∷ []
unquote (b ∷ c ∷ cs) =
    let (middle, last) = init_last c cs in if b == b'"' && last == b'"' then middle else b ∷ c ∷ cs

unfoldable pub parse_cookie_value : Bytes → Bool → Option Bytes
unfolding unquote valid_cookie_value_byte
parse_cookie_value raw allow_double_quote =
    let text = if allow_double_quote then unquote raw else raw in
    if all_bytes valid_cookie_value_byte text then some text else none

abbrev pub is_cookie_name_valid : (ℕ → Bool) → Bytes → Bool
is_cookie_name_valid is_token raw = not (is_empty raw) && all_bytes is_token raw

-- `strconv.Atoi`: a sign, digits, and the range of int64.
unfoldable pub digits_value : ℕ → Bytes → Option ℕ
digits_value n [] = some n
digits_value n (b ∷ bs) =
    let rest = digits_value (n * 10 + (b - b'0')) bs in
    if leb b'0' b && leb b b'9' then rest else none

abbrev minus : ℕ → ℤ
minus n = if n == 0 then pos 0 else negsuc (n - 1)

abbrev in_range : Bool → Option ℕ → Option ℤ
in_range negative none = none
in_range false (some n) = if ltb n (2 ^ 63) then some (pos n) else none
in_range true (some n) = if leb n (2 ^ 63) then some (minus n) else none

abbrev digits : Bool → Bytes → Option ℤ
digits negative s = if is_empty s then none else in_range negative (digits_value 0 s)

unfoldable pub atoi : Bytes → Option ℤ
unfolding digits_value
atoi [] = none
atoi (b ∷ bs) =
    if b == b'-'
    then digits true bs
    else if b == b'+'
    then digits false bs
    else digits false (b ∷ bs)

abbrev starts_with_zero : Bytes → Bool
starts_with_zero [] = false
starts_with_zero (b ∷ bs) = b == b'0'

-- An attribute's case: whether it ends in `continue`, and the cookie.
abbrev set_max_age : Cookie → Bytes → Option ℤ → Bool × Cookie
set_max_age c val none = (false, c)
set_max_age c val (some secs) =
    if not (eq_ℤ secs (pos 0)) && starts_with_zero val
    then (false, c)
    else (true, record c { max_age = if leb_ℤ secs (pos 0) then negsuc 0 else secs })

abbrev same_site_of : Bytes → SameSite
same_site_of v =
    if eq_bytes v (b'l' ∷ b'a' ∷ b'x' ∷ [])
    then lax_mode
    else if eq_bytes v (b's' ∷ b't' ∷ b'r' ∷ b'i' ∷ b'c' ∷ b't' ∷ [])
    then strict_mode
    else if eq_bytes v (b'n' ∷ b'o' ∷ b'n' ∷ b'e' ∷ [])
    then none_mode
    else default_mode

abbrev pub rfc1123 : Bytes
rfc1123 =
    b'M' ∷ b'o' ∷ b'n' ∷ b',' ∷ b' ' ∷ b'0' ∷ b'2' ∷ b' ' ∷ b'J' ∷ b'a' ∷ b'n' ∷ b' ' ∷ b'2' ∷ b'0'
    ∷ b'0' ∷ b'6' ∷ b' ' ∷ b'1' ∷ b'5' ∷ b':' ∷ b'0' ∷ b'4' ∷ b':' ∷ b'0' ∷ b'5' ∷ b' ' ∷ b'M'
    ∷ b'S' ∷ b'T' ∷ []

abbrev pub dashed_layout : Bytes
dashed_layout =
    b'M' ∷ b'o' ∷ b'n' ∷ b',' ∷ b' ' ∷ b'0' ∷ b'2' ∷ b'-' ∷ b'J' ∷ b'a' ∷ b'n' ∷ b'-' ∷ b'2' ∷ b'0'
    ∷ b'0' ∷ b'6' ∷ b' ' ∷ b'1' ∷ b'5' ∷ b':' ∷ b'0' ∷ b'4' ∷ b':' ∷ b'0' ∷ b'5' ∷ b' ' ∷ b'M'
    ∷ b'S' ∷ b'T' ∷ []

abbrev or_else : Option ℕ → Option ℕ → Option ℕ
or_else none o = o
or_else (some t) o = some t

abbrev is_some : Option ℕ → Bool
is_some none = false
is_some (some t) = true

abbrev pub keep_unparsed : Bytes → Bool × Cookie → Cookie
keep_unparsed part (true, c) = c
keep_unparsed part (false, c) = record c { unparsed = c.unparsed ++ (part ∷ []) }

abbrev pub name_and_value : Bytes → Option (Bytes × Bytes) → Bytes × Bytes
name_and_value part none = (part, [])
name_and_value part (some p) = p

module _ (parse_time : Bytes → Bytes → Option ℕ) where
  abbrev pub set_expires : Cookie → Bytes → Bool × Cookie
  set_expires c val =
      let t = or_else (parse_time rfc1123 val) (parse_time dashed_layout val) in
      (is_some t, record c { raw_expires = val; expires = t })

  -- The switch over the name of an attribute in lower case.
  unfoldable pub set_attribute : Cookie → Bytes → Bytes → Bool × Cookie
  unfolding atoi
  set_attribute c attr val =
      if eq_bytes attr (b's' ∷ b'a' ∷ b'm' ∷ b'e' ∷ b's' ∷ b'i' ∷ b't' ∷ b'e' ∷ [])
      then (true, record c { same_site = same_site_of (to_lower val) })
      else if eq_bytes attr (b's' ∷ b'e' ∷ b'c' ∷ b'u' ∷ b'r' ∷ b'e' ∷ [])
      then (true, record c { secure = true })
      else if eq_bytes attr (b'h' ∷ b't' ∷ b't' ∷ b'p' ∷ b'o' ∷ b'n' ∷ b'l' ∷ b'y' ∷ [])
      then (true, record c { http_only = true })
      else if eq_bytes attr (b'd' ∷ b'o' ∷ b'm' ∷ b'a' ∷ b'i' ∷ b'n' ∷ [])
      then (true, record c { domain = val })
      else if eq_bytes attr (b'm' ∷ b'a' ∷ b'x' ∷ b'-' ∷ b'a' ∷ b'g' ∷ b'e' ∷ [])
      then set_max_age c val (atoi val)
      else if eq_bytes attr (b'e' ∷ b'x' ∷ b'p' ∷ b'i' ∷ b'r' ∷ b'e' ∷ b's' ∷ [])
      then set_expires c val
      else if eq_bytes attr (b'p' ∷ b'a' ∷ b't' ∷ b'h' ∷ [])
      then (true, record c { path = val })
      else (false, c)

  abbrev pub set_parsed : Cookie → Bytes → Bytes → Option Bytes → Cookie
  set_parsed c part attr none = keep_unparsed part (false, c)
  set_parsed c part attr (some v) = keep_unparsed part (set_attribute c (to_lower attr) v)

  -- One round of the loop over the attributes, on a part without the spaces around it.
  unfoldable pub read_attribute : Cookie → Bytes → Cookie
  unfolding set_attribute parse_cookie_value cut
  read_attribute c part =
      let (attr, val) = name_and_value part (cut b'=' part) in
      if is_empty part then c else set_parsed c part attr (parse_cookie_value val false)

  unfoldable pub read_attributes : Cookie → List Bytes → Cookie
  unfolding read_attribute
  read_attributes c [] = c
  read_attributes c (part ∷ parts) = read_attributes (read_attribute c (trim_space part)) parts

  abbrev pub with_value : Bytes → Bytes → List Bytes → Option Bytes → Option Cookie
  with_value line name rest none = none
  with_value line name rest (some v) = some (read_attributes (new_cookie name v line) rest)

module _ (parse_time : Bytes → Bytes → Option ℕ) (is_token : ℕ → Bool) where
  abbrev pub read_named : Bytes → List Bytes → Option (Bytes × Bytes) → Option Cookie
  read_named line rest none = none
  read_named line rest (some (name, value)) =
      if not (is_cookie_name_valid is_token name)
      then none
      else with_value parse_time line name rest (parse_cookie_value value true)

  abbrev pub read_parts : Bytes → List Bytes → Option Cookie
  read_parts line [] = none
  read_parts line (first ∷ []) =
      if is_empty first then none else read_named line [] (cut b'=' (trim_space first))
  read_parts line (first ∷ second ∷ rest) =
      read_named line (second ∷ rest) (cut b'=' (trim_space first))

  -- One round of the loop over the lines: the cookie, unless the line is passed over.
  unfoldable pub read_line : Bytes → Option Cookie
  unfolding read_attributes parse_cookie_value cut split
  read_line line = read_parts line (split b';' (trim_space line))

  abbrev add_read : Option Cookie → List Cookie → List Cookie
  add_read none cs = cs
  add_read (some c) cs = c ∷ cs

  -- `readSetCookies` on the lines of `Set-Cookie`.
  unfoldable pub read_set_cookies : List Bytes → List Cookie
  unfolding read_line
  read_set_cookies [] = []
  read_set_cookies (line ∷ lines) = add_read (read_line line) (read_set_cookies lines)
