-- ===== src/Middleware/BusFilter/Passed.antt =====
-- middleware/bus.go: what the bus holds after the filter.
use dt_go.Base.{
  Bool, true, false, List, arith, [], ◌∷◌, String, str_eq, eq_iff, if◌then◌else◌, ◌≡◌, refl, sym,
  ap, ◌∙◌, inl, inr, In, All, keep, Bool-cases, ==-same,
}
use dt_go.Internal.Headers.{Header, Process, Worker, bus_del, act, header_del}
use dt_go.Middleware.BusFilter.{is_passed, bus_filter}

module _ (canonical : String → String) where
  IsCanonical : String → Type 0
  IsCanonical key = canonical key ≡ key

  -- The filter on the header alone.
  unfoldable drop_all : List String → Header → Header
  drop_all [] h = h
  drop_all (key ∷ keys) h = drop_all keys (if is_passed key then h else header_del canonical key h)

  del_or_not :
      (skip : Bool) (run : Worker) (key : String) (p : Process)
      → (if skip then p else act canonical (bus_del run key) p).headers run
        ≡ (if skip then p.headers run else header_del canonical key (p.headers run))
  unfolding act
  del_or_not true run key p = refl
  del_or_not false run key p = rw (==-same run) refl

  bus_filter-drop_all :
      (run : Worker) (keys : List String) (p : Process)
      → (bus_filter canonical run keys p).headers run ≡ drop_all keys (p.headers run)
  unfolding bus_filter drop_all
  bus_filter-drop_all run [] p = refl
  bus_filter-drop_all run (key ∷ keys) p =
      bus_filter-drop_all run keys (if is_passed key then p else act canonical (bus_del run key) p)
      ∙ ap (drop_all keys) (del_or_not (is_passed key) run key p)

  -- No key of these takes the entry off.
  unfoldable stays : List String → String → Bool
  stays [] own = true
  stays (key ∷ keys) own =
      let rest = stays keys own in
      if is_passed key then rest else if str_eq own (canonical key) then false else rest

  drop_all-cons :
      (keys : List String) (e : String × String) (h : Header)
      → drop_all keys (e ∷ h) ≡ (if stays keys e.0 then e ∷ drop_all keys h else drop_all keys h)
  unfolding drop_all stays header_del keep
  drop_all-cons [] e h = refl
  drop_all-cons (key ∷ keys) e h = elim (Bool-cases (is_passed key)) [
    | inl passed ↦ rw (passed) (drop_all-cons keys e h)
    | inr other ↦ elim (Bool-cases (str_eq e.0 (canonical key))) [
      | inl same ↦ rw (other, same) refl
      | inr apart ↦ rw (other, apart) (drop_all-cons keys e (header_del canonical key h))
    ]
  ]

  passed-stays :
      (keys : List String) (own : String)
      → All IsCanonical keys
      → is_passed own ≡ true
      → stays keys own ≡ true
  unfolding stays IsCanonical
  passed-stays [] own c t = refl
  passed-stays (key ∷ keys) own c t = elim (Bool-cases (is_passed key)) [
    | inl e ↦ rw (e) (passed-stays keys own c.1 t)
    | inr e ↦ elim (Bool-cases (str_eq own (canonical key))) [
      | inl same ↦
          absurd (ground (arith, t, e, ap is_passed ((eq_iff own (canonical key)).0 same ∙ c.0)))
      | inr apart ↦ rw (e, apart) (passed-stays keys own c.1 t)
    ]
  ]

  other_goes :
      (keys : List String) (own : String)
      → All IsCanonical keys
      → In own keys
      → is_passed own ≡ false
      → stays keys own ≡ false
  unfolding stays IsCanonical
  other_goes [] own c i f = absurd i
  other_goes (key ∷ keys) own c (inl same) f =
      rw (ap is_passed same ∙ f, (eq_iff own (canonical key)).1 (sym (c.0 ∙ same))) refl
  other_goes (key ∷ keys) own c (inr i) f = elim (Bool-cases (is_passed key)) [
    | inl e ↦ rw (e) (other_goes keys own c.1 i f)
    | inr e ↦ elim (Bool-cases (str_eq own (canonical key))) [
      | inl same ↦ rw (e, same) refl
      | inr apart ↦ rw (e, apart) (other_goes keys own c.1 i f)
    ]
  ]

  drop_all-nothing : (keys : List String) → drop_all keys [] ≡ []
  unfolding drop_all header_del keep
  drop_all-nothing [] = refl
  drop_all-nothing (key ∷ keys) = elim (Bool-cases (is_passed key)) [
    | inl e ↦ rw (e) (drop_all-nothing keys)
    | inr e ↦ rw (e) (drop_all-nothing keys)
  ]

  drop_all-keep :
      (keys : List String) (h : Header)
      → All IsCanonical keys
      → All (λ (e : String × String). In e.0 keys) h
      → drop_all keys h ≡ keep (λ (e : String × String). is_passed e.0) h
  unfolding keep
  drop_all-keep keys [] c i = drop_all-nothing keys
  drop_all-keep keys (e ∷ h) c i = drop_all-cons keys e h ∙ elim (Bool-cases (is_passed e.0)) [
    | inl t ↦ rw (t, passed-stays keys e.0 c t) (ap (λ xs. e ∷ xs) (drop_all-keep keys h c i.1))
    | inr f ↦ rw (f, other_goes keys e.0 c i.0 f) (drop_all-keep keys h c i.1)
  ]

-- Where the keys ranged over are those of the bus, in any order, and are canonical, the filter leaves
-- on the bus exactly the values of the keys that begin with x- or X-, in their order, and none is lost.
pub bus_filter-keep :
    (canonical : String → String) (run : Worker) (keys : List String) (p : Process)
    → All (λ (key : String). canonical key ≡ key) keys
    → All (λ (e : String × String). In e.0 keys) (p.headers run)
    → (bus_filter canonical run keys p).headers run
      ≡ keep (λ (e : String × String). is_passed e.0) (p.headers run)
unfolding IsCanonical
bus_filter-keep canonical run keys p c i =
    bus_filter-drop_all canonical run keys p ∙ drop_all-keep canonical keys (p.headers run) c i
