-- ===== src/Dhttp/Cookies/Sound.antt =====
-- infra/dhttp/http_response.go: what `readSetCookies` lets into a cookie, whatever the lines are.
use dt_go.Base.{
  Bool, true, not, List, [], ◌∷◌, ◌≡◌, refl, Option, none, some, inl, inr, if-intro, Option-cases,
  false, ℕ, arith, All,
}
use dt_go.Base.Int.{ℤ, negsuc, ◌≤ℤ◌}
use dt_go.Base.Bytes.{Bytes, is_empty, all_bytes, split, cut, trim_space, to_lower}
use dt_go.Dhttp.Cookies.{
  Cookie, new_cookie, valid_cookie_value_byte, parse_cookie_value, is_cookie_name_valid,
  set_max_age, set_attribute, name_and_value, set_parsed, add_read, keep_unparsed, atoi,
  read_attribute, read_attributes, read_named, read_parts, read_line, read_set_cookies,
}

abbrev pub IsValid : Bytes → Type 0
IsValid s = all_bytes valid_cookie_value_byte s ≡ true

parse_cookie_value-IsValid :
    (raw : Bytes) (quotes : Bool) {v : Bytes} → parse_cookie_value raw quotes ≡ some v → IsValid v
unfolding parse_cookie_value
parse_cookie_value-IsValid raw quotes h = ground (arith, h)

module _ (parse_time : Bytes → Bytes → Option ℕ) (is_token : ℕ → Bool) where
  pub record IsSound (c : Cookie) : Type 0 where
    pub name_ok : is_cookie_name_valid is_token c.name ≡ true
    pub value_ok : IsValid c.value
    pub domain_ok : IsValid c.domain
    pub path_ok : IsValid c.path
    pub age_ok : negsuc 0 ≤ℤ c.max_age

  set_max_age-IsSound :
      (c : Cookie) (val : Bytes) (o : Option ℤ) → IsSound c → IsSound (set_max_age c val o).1
  set_max_age-IsSound c val none s = s
  set_max_age-IsSound c val (some secs) s = record {
    name_ok = ground arith;
    value_ok = ground arith;
    domain_ok = ground arith;
    path_ok = ground arith;
    age_ok = ground arith;
  }

  set_attribute-IsSound :
      (c : Cookie) (attr val : Bytes)
      → IsSound c
      → IsValid val
      → IsSound (set_attribute parse_time c attr val).1
  unfolding set_attribute
  set_attribute-IsSound c attr val s h =
      let age = set_max_age-IsSound c val (atoi val) s in
      record {
        name_ok = ground (arith, age.name_ok);
        value_ok = ground (arith, age.value_ok);
        domain_ok = ground (arith, age.domain_ok);
        path_ok = ground (arith, age.path_ok);
        age_ok = ground (arith, age.age_ok);
      }

  keep_unparsed-IsSound :
      (part : Bytes) (r : Bool × Cookie) → IsSound r.1 → IsSound (keep_unparsed part r)
  keep_unparsed-IsSound part (true, c) s = s
  keep_unparsed-IsSound part (false, c) s = record {
    name_ok = s.name_ok;
    value_ok = s.value_ok;
    domain_ok = s.domain_ok;
    path_ok = s.path_ok;
    age_ok = s.age_ok;
  }

  set_parsed-IsSound :
      (c : Cookie) (part attr raw : Bytes)
      → IsSound c
      → IsSound (set_parsed parse_time c part attr (parse_cookie_value raw false))
  set_parsed-IsSound c part attr raw s = elim (Option-cases (parse_cookie_value raw false)) [
    | inl n ↦ rw n (keep_unparsed-IsSound part (false, c) s)
    | inr (v, h) ↦ rw h (
        keep_unparsed-IsSound part (set_attribute parse_time c (to_lower attr) v)
          (set_attribute-IsSound c (to_lower attr) v s (parse_cookie_value-IsValid raw false h)))
  ]

  read_attribute-IsSound :
      (c : Cookie) (part : Bytes) → IsSound c → IsSound (read_attribute parse_time c part)
  unfolding read_attribute
  read_attribute-IsSound c part s =
      let p = name_and_value part (cut b'=' part) in
      if-intro IsSound (is_empty part) (λ e. s) (λ e. set_parsed-IsSound c part p.0 p.1 s)

  read_attributes-IsSound :
      (c : Cookie) (parts : List Bytes) → IsSound c → IsSound (read_attributes parse_time c parts)
  unfolding read_attributes
  read_attributes-IsSound c [] s = s
  read_attributes-IsSound c (part ∷ parts) s =
      read_attributes-IsSound (read_attribute parse_time c (trim_space part)) parts
        (read_attribute-IsSound c (trim_space part) s)

  abbrev IsRead : Option Cookie → Type 0
  IsRead none = Unit
  IsRead (some c) = IsSound c

  read_named-IsRead :
      (line : Bytes) (rest : List Bytes) (o : Option (Bytes × Bytes))
      → IsRead (read_named parse_time is_token line rest o)
  read_named-IsRead line rest none = tt
  read_named-IsRead line rest (some (name, value)) =
      if-intro IsRead (not (is_cookie_name_valid is_token name)) (λ e. tt)
        (λ e. elim (Option-cases (parse_cookie_value value true)) [
          | inl n ↦ rw n tt
          | inr (v, h) ↦ rw h (
              read_attributes-IsSound (new_cookie name v line) rest (record {
                name_ok = ground (arith, e);
                value_ok = parse_cookie_value-IsValid value true h;
                domain_ok = refl;
                path_ok = refl;
                age_ok = omega arith;
              }))
        ])

  read_parts-IsRead :
      (line : Bytes) (parts : List Bytes) → IsRead (read_parts parse_time is_token line parts)
  read_parts-IsRead line [] = tt
  read_parts-IsRead line (first ∷ []) =
      if-intro IsRead (is_empty first) (λ e. tt) (λ e. read_named-IsRead line [] _)
  read_parts-IsRead line (first ∷ second ∷ rest) = read_named-IsRead line (second ∷ rest) _

  read_line-IsRead : (line : Bytes) → IsRead (read_line parse_time is_token line)
  unfolding read_line
  read_line-IsRead line = read_parts-IsRead line (split b';' (trim_space line))

  add_read-All :
      (o : Option Cookie) (cs : List Cookie)
      → IsRead o
      → All IsSound cs
      → All IsSound (add_read parse_time is_token o cs)
  add_read-All none cs r h = h
  add_read-All (some c) cs r h = (r, h)

  -- Whatever the lines of `Set-Cookie` are, each cookie that is read has a name of one or more token
  -- bytes, only allowed bytes in its value, its domain and its path, and a `MaxAge` of -1 or more.
  pub read_set_cookies-IsSound :
      (lines : List Bytes) → All IsSound (read_set_cookies parse_time is_token lines)
  unfolding read_set_cookies
  read_set_cookies-IsSound [] = tt
  read_set_cookies-IsSound (line ∷ lines) =
      add_read-All (read_line parse_time is_token line) (read_set_cookies parse_time is_token lines)
        (read_line-IsRead line) (read_set_cookies-IsSound lines)
