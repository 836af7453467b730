-- ===== src/Language/Best.antt =====
-- utils/utils.go: `ParseXLanguage` takes an accepted language of the greatest weight.
use dt_go.Base.{
  Bool, true, false, ◌&&◌, some, List, [], ◌∷◌, if◌then◌else◌, if-intro, In, ◌≡◌, refl, sym, ap,
  ◌∙◌, subst, ◌⊎◌, inl, inr, ◌↔◌, arith,
}
use dt_go.Base.Bytes.{Bytes, eq_bytes, is_empty}
use dt_go.Language.{
  default_language, is_one_of, accept_langs, Weights, header_weights, language_of, lt_bytes, Choice,
  no_choice, take_better, see_star, choose, parse_x_language,
}

lt_bytes_nil : (t : Bytes) → lt_bytes t [] ≡ false
unfolding lt_bytes
lt_bytes_nil [] = refl
lt_bytes_nil (b ∷ t) = refl

lt_bytes-same : (t : Bytes) → lt_bytes t t ≡ false
unfolding lt_bytes
lt_bytes-same [] = refl
lt_bytes-same (b ∷ t) = ground (arith, lt_bytes-same t)

lt_bytes_trans : (s t u : Bytes) → lt_bytes s u ≡ false → lt_bytes s t ≡ true → lt_bytes t u ≡ false
unfolding lt_bytes
lt_bytes_trans s t [] h k = lt_bytes_nil t
lt_bytes_trans [] t (c ∷ u) h k = absurd (ground (arith, h))
lt_bytes_trans (a ∷ s) [] (c ∷ u) h k = absurd (ground (arith, k))
lt_bytes_trans (a ∷ s) (b ∷ t) (c ∷ u) h k = ground (arith, h, k, lt_bytes_trans s t u)

-- No accepted language of the entries has a greater weight.
abbrev pub NoneBetter : List Bytes → Bytes → Weights → Type 0
NoneBetter accepted w m =
    (lang v : Bytes) → In (lang, v) m → is_one_of accepted lang && lt_bytes w v ≡ false

module _ (accepted : List Bytes) where
  -- What the loop makes of a choice: it is kept or a better one is taken from the entries.
  record Improves (c r : Choice) (m : Weights) : Type 0 where
    none_better : NoneBetter accepted r.weight m
    keeps : (v : Bytes) → lt_bytes c.weight v ≡ false → lt_bytes r.weight v ≡ false
    is_from :
        ((r.language ≡ c.language) × (r.weight ≡ c.weight))
        ⊎ (In (r.language, r.weight) m × (is_one_of accepted r.language ≡ true))

  take_better-Improves :
      (c : Choice) (lang w : Bytes) → Improves c (take_better accepted c lang w) ((lang, w) ∷ [])
  take_better-Improves c lang w =
      if-intro (λ r. Improves c r ((lang, w) ∷ [])) (is_one_of accepted lang && lt_bytes c.weight w)
        (λ e. record {
          none_better = λ l v i. elim i [
            | inl same ↦
                subst (λ (p : Bytes × Bytes). is_one_of accepted p.0 && lt_bytes w p.1 ≡ false) same
                  (ground (arith, lt_bytes-same w))
            | inr x ↦ absurd x
          ];
          keeps = λ v h. lt_bytes_trans c.weight w v h (ground (arith, e));
          is_from = inr (inl refl, ground (arith, e));
        })
        (λ e. record {
          none_better = λ l v i. elim i [
            | inl same ↦
                subst
                  (λ (p : Bytes × Bytes). is_one_of accepted p.0 && lt_bytes c.weight p.1 ≡ false)
                  same e
            | inr x ↦ absurd x
          ];
          keeps = λ v h. h;
          is_from = inl (refl, refl);
        })

  see_star-Improves :
      (c r : Choice) (lang : Bytes) (m : Weights)
      → Improves c r m
      → Improves c (see_star accepted lang r) m
  see_star-Improves c r lang m h =
      if-intro (λ x. Improves c x m) (eq_bytes lang (b'*' ∷ []))
        (λ e. record { none_better = h.none_better; keeps = h.keeps; is_from = h.is_from }) (λ e. h)

  Improves-cons :
      (c d r : Choice) (lang w : Bytes) (m : Weights)
      → Improves c d ((lang, w) ∷ [])
      → Improves d r m
      → Improves c r ((lang, w) ∷ m)
  Improves-cons c d r lang w m f g = record {
    none_better = λ l v i. elim i [
      | inl same ↦
          and_false (is_one_of accepted l) (lt_bytes d.weight v) (lt_bytes r.weight v)
            (f.none_better l v (inl same)) (g.keeps v)
      | inr later ↦ g.none_better l v later
    ];
    keeps = λ v h. g.keeps v (f.keeps v h);
    is_from = elim g.is_from [
      | inr (i, a) ↦ inr (inr i, a)
      | inl (l, v) ↦ elim f.is_from [
        | inl (k, u) ↦ inl (l ∙ k, v ∙ u)
        | inr (i, a) ↦ inr (first_of l v i, ap (is_one_of accepted) l ∙ a)
      ]
    ];
  }
    where
      and_false : (a x y : Bool) → a && x ≡ false → (x ≡ false → y ≡ false) → a && y ≡ false
      and_false true x y h k = k h
      and_false false x y h k = refl

      first_of :
          r.language ≡ d.language
          → r.weight ≡ d.weight
          → In {A = Bytes × Bytes} (d.language, d.weight) ((lang, w) ∷ [])
          → In {A = Bytes × Bytes} (r.language, r.weight) ((lang, w) ∷ m)
      first_of l v (inl same) =
          inl (same ∙ ap (λ x. (x, d.weight)) (sym l) ∙ ap (λ x. (r.language, x)) (sym v))
      first_of l v (inr x) = absurd x

  choose-Improves : (c : Choice) (m : Weights) → Improves c (choose accepted c m) m
  unfolding choose
  choose-Improves c [] = record {
    none_better = λ l v i. absurd i;
    keeps = λ v h. h;
    is_from = inl (refl, refl);
  }
  choose-Improves c ((lang, w) ∷ m) =
      let d = see_star accepted lang (take_better accepted c lang w) in
      Improves-cons c d (choose accepted d m) lang w m
        (see_star-Improves c (take_better accepted c lang w) lang ((lang, w) ∷ [])
          (take_better-Improves c lang w))
        (choose-Improves d m)

-- What a header of which the map is m may give: the default, where no accepted language has a weight,
-- or an accepted language of the map of which no other accepted one has a greater weight.
abbrev pub IsChosen : List Bytes → Bytes → Weights → Bytes → Type 0
IsChosen accepted default m language =
    ((language ≡ default) × NoneBetter accepted [] m)
    ⊎ ((w : Bytes) × In (language, w) m
        × (is_one_of accepted language ≡ true)
        × NoneBetter accepted w m)

module _ (order : Weights → Weights)
    (order-In : (m : Weights) (e : Bytes × Bytes) → In e (order m) ↔ In e m) (env : Bytes)
    (langs : List Bytes) (names_nothing : is_one_of (accept_langs langs) [] ≡ false) where
  accepted-nonempty : (s : Bytes) → is_one_of (accept_langs langs) s ≡ true → is_empty s ≡ false
  accepted-nonempty [] a = absurd (ground (arith, a, names_nothing))
  accepted-nonempty (b ∷ s) a = refl

  chosen :
      (m : Weights) (c : Choice)
      → Improves (accept_langs langs) no_choice c (order m)
      → IsChosen
          (accept_langs langs)
          (default_language env)
          m
          (if is_empty c.language then default_language env else c.language)
  chosen m c h = elim h.is_from [
    | inl (l, w) ↦ rw l (
        inl (
          refl,
          λ lang v i.
              subst (λ x. is_one_of (accept_langs langs) lang && lt_bytes x v ≡ false) w
                (h.none_better lang v ((order-In m (lang, v)).1 i)),
        ))
    | inr (i, a) ↦ rw (accepted-nonempty c.language a) (
        inr (
          c.weight,
          (order-In m (c.language, c.weight)).0 i,
          a,
          λ lang v j. h.none_better lang v ((order-In m (lang, v)).1 j),
        ))
  ]

  -- Where the header is read without a panic, and the empty text is no accepted language:
  -- `ParseXLanguage` gives an accepted language of the header of which no other accepted one has a
  -- greater weight, as a text; or the default language, where no accepted language has a weight.
  -- This holds for every order in which the map may be ranged over.
  pub parse_x_language-IsChosen :
      (header : Bytes) (m : Weights)
      → header_weights header ≡ some m
      → IsChosen
          (accept_langs langs)
          (default_language env)
          m
          (parse_x_language order env langs header)
  unfolding parse_x_language
  parse_x_language-IsChosen header m e =
      subst
        (λ o.
          IsChosen (accept_langs langs) (default_language env) m (language_of order env langs o))
        (sym e)
        (chosen m (choose (accept_langs langs) no_choice (order m))
          (choose-Improves (accept_langs langs) no_choice (order m)))
