-- ===== src/Base/Bytes.antt =====
-- Texts as lists of bytes, with the functions of Go's package strings that the parsers use.
use Prim.Native.Nat.{ℕ, ◌+◌}
use mathlib.Core.Path.{◌≡◌, refl, ap, subst, ◌∙◌}
use mathlib.Core.Logic.{◌↔◌}
use mathlib.Core.Bool.{Bool, true, false, not, ◌&&◌, ◌||◌}
use mathlib.Core.Option.{Option, none, some}
use mathlib.Core.List.{List, [], ◌∷◌, ◌++◌}
use native.Mathlib.Omega.{arith}
use dt_go.Base.Tests.{leb, ◌==◌, ==_iff, if◌then◌else◌}

abbrev pub Bytes : Type 0
Bytes = List ℕ

abbrev pub eq_bytes : Bytes → Bytes → Bool
eq_bytes [] [] = true
eq_bytes [] (b ∷ t) = false
eq_bytes (a ∷ s) [] = false
eq_bytes (a ∷ s) (b ∷ t) = (a == b) && eq_bytes s t

abbrev pub is_empty : Bytes → Bool
is_empty [] = true
is_empty (b ∷ bs) = false

abbrev pub all_bytes : (ℕ → Bool) → Bytes → Bool
all_bytes p [] = true
all_bytes p (b ∷ bs) = p b && all_bytes p bs

-- `strings.Split(s, string(c))`
abbrev cons_first : ℕ → List Bytes → List Bytes
cons_first b [] = (b ∷ []) ∷ []
cons_first b (p ∷ ps) = (b ∷ p) ∷ ps

unfoldable pub split : ℕ → Bytes → List Bytes
split c [] = [] ∷ []
split c (b ∷ bs) = let rest = split c bs in if b == c then [] ∷ rest else cons_first b rest

-- `s[:j]` and `s[j+1:]` for the index j of the first c.
abbrev cons_left : ℕ → Option (Bytes × Bytes) → Option (Bytes × Bytes)
cons_left b none = none
cons_left b (some (l, r)) = some (b ∷ l, r)

unfoldable pub cut : ℕ → Bytes → Option (Bytes × Bytes)
cut c [] = none
cut c (b ∷ bs) = let rest = cut c bs in if b == c then some ([], bs) else cons_left b rest

-- The spaces of ASCII.
abbrev pub is_space : ℕ → Bool
is_space b = (leb 9 b && leb b 13) || b == b' '

unfoldable pub trim_left : Bytes → Bytes
trim_left [] = []
trim_left (b ∷ bs) = let rest = trim_left bs in if is_space b then rest else b ∷ bs

unfoldable pub trim_right : Bytes → Bytes
trim_right [] = []
trim_right (b ∷ bs) =
    let rest = trim_right bs in if is_space b && is_empty rest then [] else b ∷ rest

-- `strings.TrimSpace`
abbrev pub trim_space : Bytes → Bytes
trim_space s = trim_right (trim_left s)

-- `strings.ToLower`
abbrev pub lower_byte : ℕ → ℕ
lower_byte b = if leb b'A' b && leb b b'Z' then b + 32 else b

abbrev pub to_lower : Bytes → Bytes
to_lower [] = []
to_lower (b ∷ bs) = lower_byte b ∷ to_lower bs

pub all_bytes-append :
    (p : ℕ → Bool) (xs ys : Bytes)
    → all_bytes p xs ≡ true
    → all_bytes p ys ≡ true
    → all_bytes p (xs ++ ys) ≡ true
all_bytes-append p [] ys hx hy = hy
all_bytes-append p (x ∷ xs) ys hx hy = ground (arith, all_bytes-append p xs ys)

-- No byte of the text is c.
abbrev pub Lacks : ℕ → Bytes → Type 0
Lacks c s = all_bytes (λ b. not (b == c)) s ≡ true

pub split-append :
    (c : ℕ) (p rest : Bytes) → Lacks c p → split c (p ++ (c ∷ rest)) ≡ p ∷ split c rest
unfolding split
split-append c [] rest h = ground arith
split-append c (b ∷ bs) rest h = ground (arith, split-append c bs rest)

pub split-Lacks : (c : ℕ) (p : Bytes) → Lacks c p → split c p ≡ p ∷ []
unfolding split
split-Lacks c [] h = refl
split-Lacks c (b ∷ bs) h = ground (arith, split-Lacks c bs)

pub cut-append : (c : ℕ) (p rest : Bytes) → Lacks c p → cut c (p ++ (c ∷ rest)) ≡ some (p, rest)
unfolding cut
cut-append c [] rest h = ground arith
cut-append c (b ∷ bs) rest h = ground (arith, cut-append c bs rest)

pub cut-Lacks : (c : ℕ) (p : Bytes) → Lacks c p → cut c p ≡ none
unfolding cut
cut-Lacks c [] h = refl
cut-Lacks c (b ∷ bs) h = ground (arith, cut-Lacks c bs)

-- A text with no space in it.
abbrev pub Spaceless : Bytes → Type 0
Spaceless s = all_bytes (λ b. not (is_space b)) s ≡ true

pub trim_right-Spaceless : (s : Bytes) → Spaceless s → trim_right s ≡ s
unfolding trim_right
trim_right-Spaceless [] h = refl
trim_right-Spaceless (b ∷ bs) h = ground (arith, trim_right-Spaceless bs)

pub trim_left-Spaceless : (s : Bytes) → Spaceless s → trim_left s ≡ s
unfolding trim_left
trim_left-Spaceless [] h = refl
trim_left-Spaceless (b ∷ bs) h = ground arith

pub trim_space-Spaceless : (s : Bytes) → Spaceless s → trim_space s ≡ s
trim_space-Spaceless s h = ap trim_right (trim_left-Spaceless s h) ∙ trim_right-Spaceless s h

pub all_bytes-weaken :
    (p q : ℕ → Bool) (s : Bytes)
    → ((b : ℕ) → p b ≡ true → q b ≡ true)
    → all_bytes p s ≡ true
    → all_bytes q s ≡ true
all_bytes-weaken p q [] f h = refl
all_bytes-weaken p q (b ∷ bs) f h = ground (arith, f b, all_bytes-weaken p q bs f)

pub eq_bytes_iff : (s t : Bytes) → (eq_bytes s t ≡ true) ↔ (s ≡ t)
eq_bytes_iff s t = (forth s t, λ e. subst (λ x. eq_bytes s x ≡ true) e (same s))
  where
    same : (s : Bytes) → eq_bytes s s ≡ true
    same [] = refl
    same (b ∷ s) = ground (arith, same s)

    forth : (s t : Bytes) → eq_bytes s t ≡ true → s ≡ t
    forth [] [] h = refl
    forth [] (b ∷ t) h = absurd (ground (arith, h))
    forth (a ∷ s) [] h = absurd (ground (arith, h))
    forth (a ∷ s) (b ∷ t) h =
        ap (λ x. x ∷ s) ((==_iff a b).0 (ground (arith, h)))
        ∙ ap (◌∷◌ b) (forth s t (ground (arith, h)))
