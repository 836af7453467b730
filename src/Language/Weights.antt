-- ===== src/Language/Weights.antt =====
-- utils/utils.go reads back a header of languages and weights, printed as `fr;q=0.9, zh-CN, *;q=0.5`.
use mathlib.Core.List.{append-nil}
use dt_go.Base.{
  ℕ, Bool, true, false, not, ◌&&◌, some, List, [], ◌∷◌, ◌++◌, map, ◌==◌, keep, All, ◌≡◌, refl, ap,
  ◌∙◌, arith, ◌>>=◌, Bool-cases, inl, inr,
}
use dt_go.Base.Bytes.{
  Bytes, all_bytes, all_bytes-append, all_bytes-weaken, Lacks, split, split-append, split-Lacks,
}
use dt_go.Language.{Weights, set_weight, second_part, add_parts, read_weights, header_weights}

-- A language, and its weight if it has one.
pub data Item : Type 0 where
  plain : Bytes → Item
  weighted : Bytes → Bytes → Item

abbrev pub item_text : Item → Bytes
item_text (plain l) = l
item_text (weighted l w) = l ++ (b';' ∷ b'q' ∷ b'=' ∷ w)

abbrev pub rest_text : List Item → Bytes
rest_text [] = []
rest_text (i ∷ is) = b',' ∷ b' ' ∷ item_text i ++ rest_text is

abbrev pub header_text : Item → List Item → Bytes
header_text i is = item_text i ++ rest_text is

abbrev pub is_clean : ℕ → Bool
is_clean b = not (b == b',') && not (b == b';') && not (b == b'=') && not (b == b' ')

abbrev pub IsClean : Item → Type 0
IsClean (plain l) = all_bytes is_clean l ≡ true
IsClean (weighted l w) = (all_bytes is_clean l ≡ true) × (all_bytes is_clean w ≡ true)

-- The map that the items say; of a language that stands twice the later weight counts.
abbrev pub set_item : Weights → Item → Weights
set_item m (plain l) = set_weight m l (b'1' ∷ [])
set_item m (weighted l w) = set_weight m l w

abbrev pub weights_of : Weights → List Item → Weights
weights_of m [] = m
weights_of m (i ∷ is) = weights_of (set_item m i) is

abbrev no_space : ℕ → Bool
no_space b = not (b == b' ')

keep-append : (s t : Bytes) → keep no_space (s ++ t) ≡ keep no_space s ++ keep no_space t
unfolding keep
keep-append [] t = refl
keep-append (b ∷ s) t = elim (Bool-cases (no_space b)) [
  | inl e ↦ rw e (ap (◌∷◌ b) (keep-append s t))
  | inr e ↦ rw e (keep-append s t)
]

keep-all : (s : Bytes) → all_bytes no_space s ≡ true → keep no_space s ≡ s
unfolding keep
keep-all [] h = refl
keep-all (b ∷ s) h = ground (arith, keep-all s)

-- The text of an item has no comma and no space.
item_text-all :
    (p : ℕ → Bool) (i : Item)
    → ((b : ℕ) → is_clean b ≡ true → p b ≡ true)
    → p b';' && p b'q' && p b'=' ≡ true
    → IsClean i
    → all_bytes p (item_text i) ≡ true
item_text-all p (plain l) f h c = all_bytes-weaken is_clean p l f c
item_text-all p (weighted l w) f h c =
    all_bytes-append p l (b';' ∷ b'q' ∷ b'=' ∷ w) (all_bytes-weaken is_clean p l f c.0)
      (ground (arith, h, all_bytes-weaken is_clean p w f c.1))

clean-Lacks : (c : ℕ) (s : Bytes) → is_clean c ≡ false → all_bytes is_clean s ≡ true → Lacks c s
clean-Lacks c s h = all_bytes-weaken is_clean (λ b. not (b == c)) s (λ b k. ground (arith, h, k))

abbrev joined : List Item → Bytes
joined [] = []
joined (i ∷ is) = b',' ∷ item_text i ++ joined is

keep-item : (i : Item) → IsClean i → keep no_space (item_text i) ≡ item_text i
keep-item i c = keep-all (item_text i) (item_text-all no_space i (λ b h. ground (arith, h)) refl c)

keep-rest : (is : List Item) → All IsClean is → keep no_space (rest_text is) ≡ joined is
unfolding keep
keep-rest [] c = refl
keep-rest (i ∷ is) c = ap (◌∷◌ b',') (
    keep-append (item_text i) (rest_text is)
    ∙ ap (λ s. s ++ keep no_space (rest_text is)) (keep-item i c.0)
    ∙ ap (λ s. item_text i ++ s) (keep-rest is c.1))

item_text-Lacks : (i : Item) → IsClean i → Lacks b',' (item_text i)
item_text-Lacks i c = item_text-all (λ b. not (b == b',')) i (λ b h. ground (arith, h)) refl c

split-joined :
    (i : Item) (is : List Item)
    → IsClean i
    → All IsClean is
    → split b',' (item_text i ++ joined is) ≡ item_text i ∷ map item_text is
split-joined i [] c cs = rw append-nil (split-Lacks b',' (item_text i) (item_text-Lacks i c))
split-joined i (j ∷ is) c cs =
    split-append b',' (item_text i) (item_text j ++ joined is) (item_text-Lacks i c)
    ∙ ap (◌∷◌ (item_text i)) (split-joined j is cs.0 cs.1)

add_parts-item :
    (m : Weights) (i : Item)
    → IsClean i
    → add_parts m (split b';' (item_text i)) ≡ some (set_item m i)
add_parts-item m (plain l) c = ap (add_parts m) (split-Lacks b';' l (clean-Lacks b';' l refl c))
add_parts-item m (weighted l w) c =
    ap (add_parts m) (
      split-append b';' l (b'q' ∷ b'=' ∷ w) (clean-Lacks b';' l refl c.0)
      ∙ ap (λ ps. l ∷ ps) (split-Lacks b';' (b'q' ∷ b'=' ∷ w) (clean-Lacks b';' w refl c.1)))
    ∙ ap (λ ps. second_part ps >>= (λ v. some (set_weight m l v)))
        (split-append b'=' (b'q' ∷ []) w refl
          ∙ ap (λ ps. (b'q' ∷ []) ∷ ps) (split-Lacks b'=' w (clean-Lacks b'=' w refl c.1)))

read_weights-items :
    (m : Weights) (is : List Item)
    → All IsClean is
    → read_weights m (map item_text is) ≡ some (weights_of m is)
unfolding read_weights
read_weights-items m [] c = refl
read_weights-items m (i ∷ is) c =
    ap (λ o. o >>= (λ n. read_weights n (map item_text is))) (add_parts-item m i c.0)
    ∙ read_weights-items (set_item m i) is c.1

-- A header that prints a list of languages, each with a weight or without one and with no comma, semicolon, equals
-- sign or space in it, is read as the map these say: a language without a weight has the
-- weight 1, and of a language that stands twice the later weight counts.
pub header_weights-text :
    (i : Item) (is : List Item)
    → IsClean i
    → All IsClean is
    → header_weights (header_text i is) ≡ some (weights_of [] (i ∷ is))
header_weights-text i is c cs =
    ap (λ s. read_weights [] (split b',' s))
      (keep-append (item_text i) (rest_text is)
        ∙ ap (λ s. s ++ keep no_space (rest_text is)) (keep-item i c)
        ∙ ap (λ s. item_text i ++ s) (keep-rest is cs))
    ∙ ap (read_weights []) (split-joined i is c cs)
    ∙ read_weights-items [] (i ∷ is) (c, cs)
