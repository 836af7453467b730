-- ===== src/Errors/Tests.antt =====
-- The theorems about errors/error.go at concrete data.
use dt_go.Base.{◌+◌, ◌*◌, ◌≡◌, refl, some, inl, inr, [], ◌∷◌}
use dt_go.Base.Int.{pos, negsuc}
use dt_go.Errors.{
  I18n, Registry, registered, localization, check_languages, text_of, Texts, new_error, message_of,
  ErrorResp, status_code, int_to_str, str_to_int, digits, read_digits, error_text, join,
  duplicate_code,
}
use dt_go.Errors.Registered.{Complete, localization-Complete, new_error_says}

abbrev texts : Texts
texts = ("zh-CN", "wu") ∷ ("zh-TW", "wu") ∷ ("en-US", "not found") ∷ []

abbrev not_found : I18n
not_found = record { description = texts; solution = texts }

abbrev untranslated : I18n
untranslated = record { description = ("en-US", "?") ∷ []; solution = texts }

abbrev table : Registry
table = (pos 404001001, not_found) ∷ []

abbrev second_set : Registry
second_set = (pos 500001001, not_found) ∷ (pos 500001002, untranslated) ∷ []

table-Complete : Complete (localization table []).1
table-Complete = localization-Complete table [] tt

localization-Complete_example : Complete (localization second_set []).1
localization-Complete_example = localization-Complete second_set [] tt

table_known : registered (localization table []).1 (pos 404001001) ≡ some not_found
unfolding localization registered check_languages text_of
table_known = refl

duplicate : (localization table table).0 ≡ some (duplicate_code (pos 404001001))
unfolding localization registered
duplicate = refl

abbrev missing : ErrorResp
missing = new_error (localization table []).1 "zh-CN" "en-US" (pos 404001001) "no row"

new_error_says_example :
    (text_of texts "en-US" ≡ some (message_of missing))
    × (text_of texts "en-US" ≡ some missing.description)
    × (text_of texts "en-US" ≡ some missing.solution)
new_error_says_example =
    new_error_says (localization table []).1 "zh-CN" "en-US" (pos 404001001) not_found "no row"
      table-Complete table_known (inr (inr (inl refl)))

missing_code : missing.code ≡ pos (404 * 1_000_000 + 1001)
unfolding new_error
missing_code = refl

abbrev tiny : ErrorResp
tiny = record { code = pos 42; message = ""; cause = ""; description = ""; solution = "" }

negative : status_code (record tiny { code = negsuc 404000000 }) ≡ some (negsuc 39)
unfolding status_code int_to_str digits str_to_int read_digits
negative = refl

printed : error_text (λ z. "42") tiny ≡ "Code: 42"
unfolding error_text join
printed = refl
