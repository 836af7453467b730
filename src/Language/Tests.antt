-- ===== src/Language/Tests.antt =====
-- The theorems about utils/utils.go at concrete headers.
use dt_go.Base.{
  ℕ, Bool, true, false, Option, none, some, List, [], ◌∷◌, ◌++◌, ◌≡◌, ◌↔◌, refl, In, All,
}
use dt_go.Base.Bytes.{Bytes}
use dt_go.Language.{
  Weights, accept_langs, default_language, header_weights, parse_x_language, has_intersection,
  parse_bearer_token, no_token, invalid_token,
}
use dt_go.Language.Weights.{Item, plain, weighted, header_text, weights_of, header_weights-text}
use dt_go.Language.Best.{IsChosen, parse_x_language-IsChosen}

abbrev french : Bytes
french = b'f' ∷ b'r' ∷ []

abbrev english : Bytes
english = b'e' ∷ b'n' ∷ b'-' ∷ b'U' ∷ b'S' ∷ []

abbrev chinese : Bytes
chinese = b'z' ∷ b'h' ∷ b'-' ∷ b'C' ∷ b'N' ∷ []

-- `fr, en-US;q=0.8`
abbrev items : List Item
items = weighted english (b'0' ∷ b'.' ∷ b'8' ∷ []) ∷ []

header_weights-text_example :
    header_weights (header_text (plain french) items) ≡ some (weights_of [] (plain french ∷ items))
header_weights-text_example = header_weights-text (plain french) items refl ((refl, refl), tt)

abbrev as_it_is : Weights → Weights
as_it_is m = m

same_entries : (m : Weights) (e : Bytes × Bytes) → In e (as_it_is m) ↔ In e m
same_entries m e = ((λ i. i), λ i. i)

parse_x_language-IsChosen_example :
    IsChosen
      (accept_langs [])
      (default_language [])
      (weights_of [] (plain french ∷ items))
      (parse_x_language as_it_is [] [] (header_text (plain french) items))
parse_x_language-IsChosen_example =
    parse_x_language-IsChosen as_it_is same_entries [] [] refl (header_text (plain french) items)
      (weights_of [] (plain french ∷ items)) header_weights-text_example

chooses_english : parse_x_language as_it_is [] [] (header_text (plain french) items) ≡ english
unfolding parse_x_language dt_go.Base.keep
chooses_english = refl

-- Of two languages of one weight the one that the map gives first is taken.
abbrev backwards : Weights → Weights
backwards [] = []
backwards (e ∷ m) = backwards m ++ (e ∷ [])

takes_first :
    parse_x_language as_it_is [] [] (header_text (plain chinese) (plain english ∷ [])) ≡ chinese
unfolding parse_x_language dt_go.Base.keep
takes_first = refl

takes_last :
    parse_x_language backwards [] [] (header_text (plain chinese) (plain english ∷ [])) ≡ english
unfolding parse_x_language dt_go.Base.keep
takes_last = refl

-- `en-US, fr;x` panics, so that the default is taken.
panics :
    parse_x_language as_it_is [] [] (english ++ (b',' ∷ b'f' ∷ b'r' ∷ b';' ∷ b'x' ∷ [])) ≡ chinese
unfolding parse_x_language dt_go.Base.keep
panics = refl

intersects : has_intersection (french ∷ english ∷ []) (chinese ∷ english ∷ []) ≡ true
unfolding has_intersection
intersects = refl

basic :
    parse_bearer_token (b'B' ∷ b'a' ∷ b's' ∷ b'i' ∷ b'c' ∷ b' ' ∷ b'x' ∷ [])
    ≡ no_token invalid_token
unfolding parse_bearer_token
basic = refl
