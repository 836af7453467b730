-- ===== src/Errors/StatusCodes.antt =====
-- `StatusCode` of errors/error.go: the leading digits of a code.
use mathlib.Core.List.{append_assoc, append-nil}
use dt_go.Base.{
  sym, ℕ, zero, suc, ◌+◌, ◌*◌, ◌/◌, ◌%◌, ◌≤◌, ◌<◌, ◌≡◌, refl, ap, ◌∙◌, false, Option, none, some,
  List, [], ◌∷◌, ◌++◌, ltb, lt→ltb, ltb→lt, take, length, arith, if◌then◌else◌, Bool-cases, inl,
  inr,
}
use dt_go.Base.Int.{ℤ, pos}
use dt_go.Errors.{Char, digit, digits, int_to_str, str_to_int, read_digits, ErrorResp, status_code}

shorter : (f n : ℕ) → 10 ≤ n → n < suc f → n / 10 < f
shorter f n h k = omega (arith, h, k)

big : (n : ℕ) → ltb n 10 ≡ false → 10 ≤ n
big n e = ground (arith, e)

not_small : (n : ℕ) → 10 ≤ n → ltb n 10 ≡ false
not_small n h = ground (arith, h)

-- With enough fuel the digits do not depend on it.
digits_fuel : (f g n : ℕ) → n < f → n < g → digits f n ≡ digits g n
unfolding digits
digits_fuel zero g n h k = absurd (omega (arith, h))
digits_fuel (suc f) zero n h k = absurd (omega (arith, k))
digits_fuel (suc f) (suc g) n h k = elim (Bool-cases (ltb n 10)) [
  | inl e ↦ rw (e) refl
  | inr e ↦ rw (e) (
      ap (λ l. l ++ digit (n % 10) ∷ [])
        (digits_fuel f g (n / 10) (shorter f n (big n e) h) (shorter g n (big n e) k)))
]

abbrev decimal : ℕ → List Char
decimal n = digits (suc n) n

decimal_small : (n : ℕ) → n < 10 → decimal n ≡ digit n ∷ []
unfolding digits
decimal_small n h = rw (lt→ltb n 10 h) refl

decimal_step : (n : ℕ) → 10 ≤ n → decimal n ≡ decimal (n / 10) ++ digit (n % 10) ∷ []
unfolding digits
decimal_step n h = rw (not_small n h) (
    ap (λ l. l ++ digit (n % 10) ∷ [])
      (digits_fuel n (suc (n / 10)) (n / 10) (shorter n n h (omega arith)) (omega arith)))

hundreds : (a : ℕ) → a / 10 / 10 ≡ a / 100
hundreds a = omega arith

-- The decimal text of n begins with that of m.
abbrev Begins : ℕ → ℕ → Type 0
Begins m n = (ys : List Char) × (decimal n ≡ decimal m ++ ys)

one_digit : (m n : ℕ) → 0 < m → m ≤ n / 10 → Begins m (n / 10) → Begins m n
one_digit m n pos_m h (ys, e) = (
  ys ++ digit (n % 10) ∷ [],
  decimal_step n (omega (arith, pos_m, h))
      ∙ ap (λ l. l ++ digit (n % 10) ∷ []) e
      ∙ append_assoc (decimal m) ys (digit (n % 10) ∷ []),
)

Begins-same : (m n : ℕ) → n ≡ m → Begins m n
Begins-same m n e = ([], ap decimal e ∙ sym (append-nil (decimal m)))

three_digits : (m n : ℕ) → 0 < m → n / 1000 ≡ m → Begins m n
three_digits m n pos_m e = one_digit m n pos_m (omega (arith, e)) (
    one_digit m (n / 10) pos_m (omega (arith, e)) (
      one_digit m (n / 10 / 10) pos_m (omega (arith, e))
        (Begins-same m (n / 10 / 10 / 10) (omega (arith, e)))))

Begins-trans : (l m n : ℕ) → Begins l m → Begins m n → Begins l n
Begins-trans l m n (ys, e) (zs, f) =
    (ys ++ zs, f ∙ ap (λ x. x ++ zs) e ∙ append_assoc (decimal l) ys zs)

decimal_three :
    (a : ℕ)
    → 100 ≤ a
    → a < 1000
    → decimal a ≡ digit (a / 100) ∷ digit (a / 10 % 10) ∷ digit (a % 10) ∷ []
decimal_three a h k =
    decimal_step a (omega (arith, h))
    ∙ ap (λ l. l ++ digit (a % 10) ∷ []) (decimal_step (a / 10) (omega (arith, h)))
    ∙ ap (λ l. (l ++ digit (a / 10 % 10) ∷ []) ++ digit (a % 10) ∷ [])
        (decimal_small (a / 10 / 10) (omega (arith, k)))
    ∙ ap (λ x. digit x ∷ digit (a / 10 % 10) ∷ digit (a % 10) ∷ []) (hundreds a)

-- The first three characters of a text that begins with three, as a number.
first_three :
    (x y z : ℕ) (ys : List Char)
    → str_to_int (take 3 ((digit x ∷ digit y ∷ digit z ∷ []) ++ ys))
      ≡ pos (10 * (10 * (10 * 0 + x) + y) + z)
unfolding str_to_int read_digits
first_three x y z ys = refl

value_three : (a : ℕ) → a < 1000 → 10 * (10 * (10 * 0 + a / 100) + a / 10 % 10) + a % 10 ≡ a
value_three a h = omega (arith, h)

abbrev status_of : List Char → Option ℤ
status_of text = if ltb (length text) 3 then none else some (str_to_int (take 3 text))

three_or_more : (n : ℕ) → ltb (suc (suc (suc n))) 3 ≡ false
three_or_more n = ground arith

status_of_three :
    (x y z : ℕ) (ys : List Char)
    → status_of ((digit x ∷ digit y ∷ digit z ∷ []) ++ ys)
      ≡ some (pos (10 * (10 * (10 * 0 + x) + y) + z))
status_of_three x y z ys = rw (three_or_more (length ys)) (ap some (first_three x y z ys))

-- A code of nine digits, a status of three followed by six more, has that status.
pub status_code-of_nine :
    (e : ErrorResp) (a rest : ℕ)
    → 100 ≤ a
    → a < 1000
    → rest < 1_000_000
    → e.code ≡ pos (a * 1_000_000 + rest)
    → status_code e ≡ some (pos a)
unfolding status_code int_to_str
status_code-of_nine e a rest h k small code =
    let n = a * 1_000_000 + rest in
    let (ys, f) =
      Begins-trans a (n / 1000) n
        (three_digits a (n / 1000) (omega (arith, h)) (omega (arith, small)))
        (three_digits (n / 1000) n (omega (arith, h)) refl) in
    ap status_of (ap int_to_str code ∙ f ∙ ap (λ l. l ++ ys) (decimal_three a h k))
    ∙ status_of_three (a / 100) (a / 10 % 10) (a % 10) ys
    ∙ ap (λ x. some (pos x)) (value_three a k)

status_of_short : (n : ℕ) → n < 100 → status_of (decimal n) ≡ none
status_of_short n h = elim (Bool-cases (ltb n 10)) [
  | inl e ↦ ap status_of (decimal_small n (ltb→lt n 10 e))
  | inr e ↦ ap status_of (
      decimal_step n (big n e)
      ∙ ap (λ l. l ++ digit (n % 10) ∷ []) (decimal_small (n / 10) (omega (arith, h))))
]

-- A code of fewer than three digits has no status: Go panics on the slice.
pub status_code-short : (e : ErrorResp) (n : ℕ) → n < 100 → e.code ≡ pos n → status_code e ≡ none
unfolding status_code int_to_str
status_code-short e n h code = ap status_of (ap int_to_str code) ∙ status_of_short n h
