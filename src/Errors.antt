-- ===== src/Errors.antt =====
-- errors/error.go: error codes, their translations, and the error returned to a client. The global
-- table of registered codes is the state; the order in which a Go map is ranged over is an argument.
pub mod StatusCodes
pub mod Registered
mod Tests
use Prim.Native.String.{◌++◌ as concat}
use dt_go.Base.{
  ℕ, zero, suc, ◌+◌, ◌/◌, ◌%◌, ◌*◌, Bool, true, false, not, ◌&&◌, Option, none, some, List, [], ◌∷◌,
  ◌++◌, ◌==◌, ltb, take, length, String, str_eq, if◌then◌else◌,
}
use dt_go.Base.Int.{ℤ, pos, negsuc, eq_ℤ}

-- A map from languages to texts.
abbrev pub Texts : Type 0
Texts = List (String × String)

unfoldable pub text_of : Texts → String → Option String
text_of [] lang = none
text_of ((l, t) ∷ ts) lang = if str_eq l lang then some t else text_of ts lang

-- An index of a map that is not there gives the zero value.
abbrev pub or_empty : Option String → String
or_empty none = ""
or_empty (some t) = t

pub record I18n : Type 0 where
  pub description : Texts
  pub solution : Texts

abbrev pub support_languages : List String
support_languages = "zh-CN" ∷ "zh-TW" ∷ "en-US" ∷ []

-- The registered codes.
abbrev pub Registry : Type 0
Registry = List (ℤ × I18n)

unfoldable pub registered : Registry → ℤ → Option I18n
registered [] code = none
registered ((c, i) ∷ r) code = if eq_ℤ c code then some i else registered r code

abbrev pub has_text : Texts → String → Bool
has_text ts lang = elim (text_of ts lang) [ none ↦ false | some t ↦ true ]

pub data Panic : Type 0 where
  duplicate_code : ℤ → Panic
  no_description no_solution : Panic

-- The loop over the languages: the panic, if there is one.
unfoldable pub check_languages : I18n → List String → Option Panic
unfolding text_of
check_languages i [] = none
check_languages i (lang ∷ langs) =
    if not (has_text i.description lang)
    then some no_description
    else if not (has_text i.solution lang)
    then some no_solution
    else check_languages i langs

abbrev pub check_code : ℤ → I18n → Registry → Option Panic
check_code code i r = elim (registered r code) [
  | some old ↦ some (duplicate_code code)
  | none ↦ check_languages i support_languages
]

-- A panic ends the loop; what it has registered before stays.
abbrev pub after_check : Option Panic → Registry → Option Panic × Registry → Option Panic × Registry
after_check (some p) r goes_on = (some p, r)
after_check none r goes_on = goes_on

-- `Localization` over the set in the order of iteration: the panic, and the registered codes.
unfoldable pub localization : List (ℤ × I18n) → Registry → Option Panic × Registry
unfolding registered check_languages
localization [] r = (none, r)
localization ((code, i) ∷ rest) r =
    after_check (check_code code i r) r (localization rest ((code, i) ∷ r))

pub record ErrorResp : Type 0 where
  pub code : ℤ
  pub message : String
  pub cause : String
  pub description : String
  pub solution : String

abbrev pub language_of : String → String → String
language_of default_language language = if str_eq language "" then default_language else language

-- `i18ns[code].Description[language]`, and the same for the solution.
abbrev pub localized : (I18n → Texts) → Option I18n → String → String
localized texts none lang = ""
localized texts (some i) lang = or_empty (text_of (texts i) lang)

-- `detail` is the caller's and never read. `default_language` is that of the environment.
unfoldable pub new_error : Registry → String → String → ℤ → String → ErrorResp
unfolding registered text_of
new_error r default_language language code cause = record {
  code = code;
  message = "";
  cause = cause;
  description =
      localized (λ (i : I18n). i.description) (registered r code)
        (language_of default_language language);
  solution =
      localized (λ (i : I18n). i.solution) (registered r code)
        (language_of default_language language);
}

-- The characters of a decimal number.
pub data Char : Type 0 where
  minus : Char
  digit : ℕ → Char

-- The digits of n, the last first, on fuel; suc n is enough.
unfoldable pub digits : ℕ → ℕ → List Char
digits zero n = []
digits (suc f) n =
    let front = digits f (n / 10) in if ltb n 10 then digit n ∷ [] else front ++ digit (n % 10) ∷ []

-- `strconv.Itoa`
unfoldable pub int_to_str : ℤ → List Char
unfolding digits
int_to_str (pos n) = digits (suc n) n
int_to_str (negsuc n) = minus ∷ digits (suc (suc n)) (suc n)

unfoldable pub read_digits : ℕ → List Char → Option ℕ
read_digits acc [] = some acc
read_digits acc (minus ∷ cs) = none
read_digits acc (digit d ∷ cs) = read_digits (10 * acc + d) cs

abbrev pub or_zero : Option ℕ → ℕ
or_zero none = 0
or_zero (some n) = n

-- `strconv.Atoi` with the error dropped; what is no number gives 0.
unfoldable pub str_to_int : List Char → ℤ
unfolding read_digits
str_to_int [] = pos 0
str_to_int (digit d ∷ cs) = pos (or_zero (read_digits 0 (digit d ∷ cs)))
str_to_int (minus ∷ []) = pos 0
str_to_int (minus ∷ c ∷ cs) = elim (or_zero (read_digits 0 (c ∷ cs))) [
  | zero ↦ pos 0
  | suc n ↦ negsuc n
]

-- `StatusCode`: the first three characters as a number; `none` where there are fewer, and Go panics.
unfoldable pub status_code : ErrorResp → Option ℤ
unfolding int_to_str str_to_int
status_code e =
    let text = int_to_str e.code in
    if ltb (length text) 3 then none else some (str_to_int (take 3 text))

unfoldable pub message_of : ErrorResp → String
message_of e = if str_eq e.message "" then e.description else e.message

abbrev pub info : String → String → List String
info label text = if str_eq text "" then [] else concat label text ∷ []

unfoldable pub join : String → List String → String
join sep [] = ""
join sep (a ∷ []) = a
join sep (a ∷ b ∷ l) = concat a (concat sep (join sep (b ∷ l)))

-- `Error`, where `itoa` prints a number.
unfoldable pub error_text : (ℤ → String) → ErrorResp → String
unfolding join
error_text itoa e = join ", " (
    (elim e.code [
      | pos zero ↦ []
      | pos (suc n) ↦ concat "Code: " (itoa e.code) ∷ []
      | negsuc n ↦ concat "Code: " (itoa e.code) ∷ []
    ])
    ++ info "Description: " e.description
    ++ info "Cause: " e.cause
    ++ info "Solution: " e.solution)
