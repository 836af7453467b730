-- ===== src/Errors/Registered.antt =====
-- The registered codes of errors/error.go and their translations.
use mathlib.Core.Option.{none-ne-some}
use dt_go.Base.{
  ◌≡◌, inl, inr, refl, subst, sym, ap, ◌∙◌, true, false, Option, none, some, List, [], ◌∷◌, In,
  String, str_eq, arith, Bool-cases, Option-cases,
}
use dt_go.Base.Int.{ℤ, eq_ℤ, eq_ℤ_iff}
use dt_go.Errors.{
  Texts, text_of, I18n, Registry, registered, support_languages, check_languages, check_code,
  after_check, localization, new_error, localized, language_of, message_of, Panic, has_text,
}

-- The texts of all of these languages are there.
abbrev pub Translated : Texts → List String → Type 0
Translated ts [] = Unit
Translated ts (l ∷ langs) = ((t : String) × (text_of ts l ≡ some t)) × Translated ts langs

-- Every registered code has the texts of every supported language.
abbrev pub Complete : Registry → Type 0
Complete [] = Unit
Complete ((code, i) ∷ r) =
    Translated i.description support_languages
    × Translated i.solution support_languages
    × Complete r

Translated-In :
    (ts : Texts) (langs : List String) (lang : String)
    → Translated ts langs
    → In lang langs
    → (t : String) × (text_of ts lang ≡ some t)
Translated-In ts [] lang h i = absurd i
Translated-In ts (l ∷ langs) lang ((t, e), h) (inl same) = (t, ap (text_of ts) (sym same) ∙ e)
Translated-In ts (l ∷ langs) lang (f, h) (inr i) = Translated-In ts langs lang h i

has_text-some :
    (ts : Texts) (lang : String)
    → has_text ts lang ≡ true
    → (t : String) × (text_of ts lang ≡ some t)
has_text-some ts lang h = elim (Option-cases (text_of ts lang)) [
  | inl e ↦ absurd (ground (arith, h, e))
  | inr (t, e) ↦ (t, e)
]

check_languages-none :
    (i : I18n) (langs : List String)
    → check_languages i langs ≡ none
    → Translated i.description langs × Translated i.solution langs
unfolding check_languages
check_languages-none i [] fine = (tt, tt)
check_languages-none i (l ∷ langs) fine =
    let (ds, ss) = check_languages-none i langs (ground (arith, fine)) in
    (
      (has_text-some i.description l (ground (arith, fine)), ds),
      (has_text-some i.solution l (ground (arith, fine)), ss),
    )

registered-Complete :
    (r : Registry) (code : ℤ) (i : I18n)
    → Complete r
    → registered r code ≡ some i
    → Translated i.description support_languages × Translated i.solution support_languages
unfolding registered
registered-Complete [] code i c h = absurd (none-ne-some _ h)
registered-Complete ((other, j) ∷ r) code i (d, s, c) h = elim (Bool-cases (eq_ℤ other code)) [
  | inl e ↦
      subst
        (λ (x : I18n).
          Translated x.description support_languages × Translated x.solution support_languages)
        (ground (arith, h, e)) (d, s)
  | inr f ↦ registered-Complete r code i c (ground (arith, h, f))
]

check_code-languages :
    (code : ℤ) (i : I18n) (r : Registry)
    → check_code code i r ≡ none
    → (registered r code ≡ none) × (check_languages i support_languages ≡ none)
check_code-languages code i r h = ground (arith, h)

after_check-Complete :
    (o : Option Panic) (r : Registry) (goes_on : Option Panic × Registry)
    → (o ≡ none → Complete goes_on.1)
    → Complete r
    → Complete (after_check o r goes_on).1
after_check-Complete (some p) r goes_on then_complete c = c
after_check-Complete none r goes_on then_complete c = then_complete refl

after_check_keeps :
    (o : Option Panic) (r : Registry) (goes_on : Option Panic × Registry) (code : ℤ) (i : I18n)
    → (o ≡ none → registered goes_on.1 code ≡ some i)
    → registered r code ≡ some i
    → registered (after_check o r goes_on).1 code ≡ some i
after_check_keeps (some p) r goes_on code i later known = known
after_check_keeps none r goes_on code i later known = later refl

still_registered :
    (c : ℤ) (j : I18n) (r : Registry) (code : ℤ) (i : I18n)
    → registered r code ≡ some i
    → registered r c ≡ none
    → registered ((c, j) ∷ r) code ≡ some i
unfolding registered
still_registered c j r code i known free = elim (Bool-cases (eq_ℤ c code)) [
  | inl e ↦ absurd (ground (arith, known, free, ap (registered r) ((eq_ℤ_iff c code).0 e)))
  | inr f ↦ rw (f) known
]

-- Whatever sets are registered, and also where `Localization` panics on the way, every registered
-- code has a description and a solution in every supported language.
pub localization-Complete :
    (set : List (ℤ × I18n)) (r : Registry) → Complete r → Complete (localization set r).1
unfolding localization
localization-Complete [] r c = c
localization-Complete ((code, i) ∷ rest) r c =
    after_check-Complete (check_code code i r) r (localization rest ((code, i) ∷ r))
      (λ e. localization-Complete rest ((code, i) ∷ r) (
        let (d, s) = check_languages-none i support_languages (check_code-languages code i r e).1 in
        (d, s, c)))
      c

-- A code that is registered is never overwritten: it keeps its texts through every later call, also
-- one that panics on it.
pub localization_keeps :
    (set : List (ℤ × I18n)) (r : Registry) (code : ℤ) (i : I18n)
    → registered r code ≡ some i
    → registered (localization set r).1 code ≡ some i
unfolding localization
localization_keeps [] r code i known = known
localization_keeps ((c, j) ∷ rest) r code i known =
    after_check_keeps (check_code c j r) r (localization rest ((c, j) ∷ r)) code i
      (λ e.
        localization_keeps rest ((c, j) ∷ r) code i
          (still_registered c j r code i known (check_code-languages c j r e).0))
      known

supported-ne-empty : (lang : String) → In lang support_languages → str_eq lang "" ≡ false
supported-ne-empty lang (inl e) = ap (λ x. str_eq x "") (sym e)
supported-ne-empty lang (inr (inl e)) = ap (λ x. str_eq x "") (sym e)
supported-ne-empty lang (inr (inr (inl e))) = ap (λ x. str_eq x "") (sym e)
supported-ne-empty lang (inr (inr (inr h))) = absurd h

language_of-supported :
    (default_language lang : String)
    → In lang support_languages
    → language_of default_language lang ≡ lang
language_of-supported default_language lang h = rw (supported-ne-empty lang h) refl

localized-some :
    (texts : I18n → Texts) (o : Option I18n) (i : I18n) (spoken lang t : String)
    → o ≡ some i
    → spoken ≡ lang
    → text_of (texts i) lang ≡ some t
    → localized texts o spoken ≡ t
localized-some texts o i spoken lang t known same e = rw (known, same, e) refl

-- An error of a registered code in a supported language says what was registered for it: its
-- description, which is also its message, and its solution, and none of them is missing.
pub new_error_says :
    (r : Registry) (default_language lang : String) (code : ℤ) (i : I18n) (cause : String)
    → Complete r
    → registered r code ≡ some i
    → In lang support_languages
    → let e = new_error r default_language lang code cause in
      (text_of i.description lang ≡ some (message_of e))
      × (text_of i.description lang ≡ some e.description)
      × (text_of i.solution lang ≡ some e.solution)
unfolding new_error message_of
new_error_says r default_language lang code i cause c known supported =
    let (d, s) = registered-Complete r code i c known in
    let (t, e) = Translated-In i.description support_languages lang d supported in
    let (u, f) = Translated-In i.solution support_languages lang s supported in
    let spoken = language_of-supported default_language lang supported in
    let told =
      localized-some (λ (i : I18n). i.description) (registered r code) i
        (language_of default_language lang) lang t known spoken e in
    let solved =
      localized-some (λ (i : I18n). i.solution) (registered r code) i
        (language_of default_language lang) lang u known spoken f in
    (e ∙ ap some (sym told), e ∙ ap some (sym told), f ∙ ap some (sym solved))
