-- ===== src/Language.antt =====
-- utils/utils.go: `ParseXLanguage`, `GetDefaultLanguage`, `HasIntersection`, and `parseBearerToken` of
-- middleware/oauth2.go, which reads its header the same way. Texts are bytes; the environment and the
-- order in which a Go map is ranged over are arguments.
pub mod Weights
pub mod Best
pub mod Intersection
mod Tests
use dt_go.Base.{
  ℕ, Bool, true, false, not, ◌&&◌, ◌||◌, Option, none, some, List, [], ◌∷◌, ◌==◌, ltb,
  if◌then◌else◌, ◌>>=◌, keep,
}
use dt_go.Base.Bytes.{Bytes, eq_bytes, is_empty, split, cut, to_lower}

abbrev pub replace_byte : ℕ → ℕ → Bytes → Bytes
replace_byte a b [] = []
replace_byte a b (c ∷ cs) = (if c == a then b else c) ∷ replace_byte a b cs

abbrev pub get_env : Bytes → Bytes → Bytes
get_env v default_v = if is_empty v then default_v else v

-- `GetDefaultLanguage` with the value of LANGUAGE.
abbrev pub default_language : Bytes → Bytes
default_language env = replace_byte b'_' b'-' (get_env env (b'z' ∷ b'h' ∷ b'_' ∷ b'C' ∷ b'N' ∷ []))

abbrev pub is_one_of : List Bytes → Bytes → Bool
is_one_of [] s = false
is_one_of (w ∷ ws) s = eq_bytes w s || is_one_of ws s

unfoldable pub has_intersection : List Bytes → List Bytes → Bool
has_intersection a [] = false
has_intersection a (x ∷ b) = if is_one_of a x then true else has_intersection a b

abbrev pub supported : List Bytes
supported =
    (b'z' ∷ b'h' ∷ b'-' ∷ b'C' ∷ b'N' ∷ [])
    ∷ (b'z' ∷ b'h' ∷ b'-' ∷ b'T' ∷ b'W' ∷ [])
    ∷ (b'e' ∷ b'n' ∷ b'-' ∷ b'U' ∷ b'S' ∷ [])
    ∷ []

-- The set of the languages that are accepted.
abbrev pub accept_langs : List Bytes → List Bytes
accept_langs [] = supported
accept_langs (l ∷ ls) = l ∷ ls

-- `langWeightMap`, where a language that comes again gets the new weight.
abbrev pub Weights : Type 0
Weights = List (Bytes × Bytes)

unfoldable pub set_weight : Weights → Bytes → Bytes → Weights
set_weight [] lang w = (lang, w) ∷ []
set_weight ((l, v) ∷ m) lang w =
    let rest = set_weight m lang w in if eq_bytes l lang then (lang, w) ∷ m else (l, v) ∷ rest

-- `strings.Split(s, "=")[1]`, which panics (none) where there is no `=`.
abbrev pub second_part : List Bytes → Option Bytes
second_part [] = none
second_part (a ∷ []) = none
second_part (a ∷ b ∷ rest) = some b

-- The switch over the number of parts between semicolons.
abbrev pub add_parts : Weights → List Bytes → Option Weights
add_parts m [] = some m
add_parts m (lang ∷ []) = some (set_weight m lang (b'1' ∷ []))
add_parts m (lang ∷ q ∷ []) = do w ← second_part (split b'=' q); some (set_weight m lang w)
add_parts m (lang ∷ q ∷ x ∷ rest) = some m

unfoldable pub read_weights : Weights → List Bytes → Option Weights
unfolding set_weight split
read_weights m [] = some m
read_weights m (langw ∷ rest) = add_parts m (split b';' langw) >>= (λ n. read_weights n rest)

-- The comparison of strings.
unfoldable pub lt_bytes : Bytes → Bytes → Bool
lt_bytes [] [] = false
lt_bytes [] (b ∷ t) = true
lt_bytes (a ∷ s) [] = false
lt_bytes (a ∷ s) (b ∷ t) = ltb a b || ((a == b) && lt_bytes s t)

pub record Choice : Type 0 where
  pub language : Bytes
  pub weight : Bytes
  pub accept_all : Bool

abbrev pub no_choice : Choice
no_choice = record { language = []; weight = []; accept_all = false }

module _ (accepted : List Bytes) where
  abbrev pub take_better : Choice → Bytes → Bytes → Choice
  take_better c lang w =
      if is_one_of accepted lang && lt_bytes c.weight w
      then record c { language = lang; weight = w }
      else c

  abbrev pub see_star : Bytes → Choice → Choice
  see_star lang c = if eq_bytes lang (b'*' ∷ []) then record c { accept_all = true } else c

  -- The loop over the map, in the order of iteration.
  unfoldable pub choose : Choice → Weights → Choice
  unfolding lt_bytes
  choose c [] = c
  choose c ((lang, w) ∷ rest) = choose (see_star lang (take_better c lang w)) rest

-- The deferred function, and the default that `*` asks for: both give the default where no language is
-- chosen, as does a panic (none).
abbrev pub language_of : (Weights → Weights) → Bytes → List Bytes → Option Weights → Bytes
language_of order env langs none = default_language env
language_of order env langs (some m) =
    let c = choose (accept_langs langs) no_choice (order m) in
    if is_empty c.language then default_language env else c.language

abbrev pub header_weights : Bytes → Option Weights
header_weights header = read_weights [] (split b',' (keep (λ b. not (b == b' ')) header))

unfoldable pub parse_x_language : (Weights → Weights) → Bytes → List Bytes → Bytes → Bytes
unfolding choose read_weights
parse_x_language order env langs header = language_of order env langs (header_weights header)

pub data TokenError : Type 0 where
  token_is_empty invalid_token : TokenError

pub data TokenResult : Type 0 where
  no_token : TokenError → TokenResult
  token : Bytes → TokenResult

abbrev bearer_token : Option (Bytes × Bytes) → TokenResult
bearer_token none = no_token invalid_token
bearer_token (some (scheme, t)) =
    if eq_bytes (to_lower scheme) (b'b' ∷ b'e' ∷ b'a' ∷ b'r' ∷ b'e' ∷ b'r' ∷ [])
    then token t
    else no_token invalid_token

unfoldable pub parse_bearer_token : Bytes → TokenResult
unfolding cut
parse_bearer_token hdr =
    if is_empty hdr then no_token token_is_empty else bearer_token (cut b' ' hdr)
