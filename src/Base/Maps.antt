-- ===== src/Base/Maps.antt =====
-- Go's maps with string keys, as lists of entries.
use mathlib.Core.Path.{◌≡◌, sym, ap, ◌∙◌}
use mathlib.Core.Logic.{◌⊎◌, inl, inr}
use mathlib.Core.Option.{Option, none, some, some-injective}
use mathlib.Core.List.{List, [], ◌∷◌}
use native.Mathlib.Omega.{arith}
use Prim.Native.String.{String}
use text.Mathlib.Text.{◌==◌ as str_eq}
use text.Mathlib.TextEquality.{eq_iff}
use dt_go.Base.Tests.{if◌then◌else◌, Bool-cases}
use dt_go.Base.Lists.{In}

abbrev pub Map : Type 0 → Type 0
Map A = List (String × A)

module _ {A : Type 0} where
  unfoldable pub find : Map A → String → Option A
  find [] key = none
  find ((k, a) ∷ m) key = if str_eq k key then some a else find m key

  unfoldable pub put : Map A → String → A → Map A
  put [] key a = (key, a) ∷ []
  put ((k, b) ∷ m) key a =
      let rest = put m key a in if str_eq k key then (key, a) ∷ m else (k, b) ∷ rest

  -- What is found is an entry.
  pub find-In : (m : Map A) (key : String) (a : A) → find m key ≡ some a → In (key, a) m
  unfolding find
  find-In [] key a e = absurd (ground (arith, e))
  find-In ((k, b) ∷ m) key a e = elim (Bool-cases (str_eq k key)) [
    | inl s ↦ inl (
        ap (λ x. (x, b)) ((eq_iff k key).0 s) ∙ ap (λ x. (key, x)) (some-injective b a (rw s at e)))
    | inr n ↦ inr (find-In m key a (rw n at e))
  ]

  put_again :
      (k : String) (b : A) (m rest : Map A) (key : String) (a : A) (p : String × A)
      → (In p rest → (p ≡ (key, a)) ⊎ In p m)
      → In p (if str_eq k key then (key, a) ∷ m else (k, b) ∷ rest)
      → (p ≡ (key, a)) ⊎ In p ((k, b) ∷ m)
  put_again k b m rest key a p f h = elim (Bool-cases (str_eq k key)) [
    | inl s ↦ there (rw s at h)
    | inr n ↦ later (rw n at h)
  ]
    where
      there : In p ((key, a) ∷ m) → (p ≡ (key, a)) ⊎ In p ((k, b) ∷ m)
      there (inl x) = inl (sym x)
      there (inr x) = inr (inr x)

      later : In p ((k, b) ∷ rest) → (p ≡ (key, a)) ⊎ In p ((k, b) ∷ m)
      later (inl x) = inr (inl x)
      later (inr x) = elim (f x) [ inl e ↦ inl e | inr y ↦ inr (inr y) ]

  -- An entry is the one that was put or was there before.
  pub put-In :
      (m : Map A) (key : String) (a : A) (p : String × A)
      → In p (put m key a)
      → (p ≡ (key, a)) ⊎ In p m
  unfolding put
  put-In [] key a p (inl e) = inl (sym e)
  put-In [] key a p (inr h) = absurd h
  put-In ((k, b) ∷ m) key a p h = put_again k b m (put m key a) key a p (put-In m key a p) h
