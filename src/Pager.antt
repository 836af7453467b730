-- ===== src/Pager.antt =====
-- infra/pager/db_pager.go: a query for one page of rows, and the number of pages. The database is
-- gorm's: the clauses that reach it are recorded, and what it answers is an argument.
pub mod Pages
pub mod Reports
mod Tests
use Prim.Native.String.{◌++◌ as concat}
use dt_go.Base.{
  map, ℕ, zero, suc, ◌+◌, ◌*◌, ◌/◌, ◌%◌, ◌-◌, ◌^◌, Bool, true, false, not, ◌||◌, Option, none, some,
  List, [], ◌∷◌, ◌++◌, ◌==◌, ltb, String, str_eq, if◌then◌else◌,
}
use dt_go.Base.Int.{ℤ, pos, negsuc, pos_part, neg_part, sub_ℕ, ◌+ℤ◌}

-- The wrap-around of Go's int, which has 64 bits.
unfoldable pub wrap64 : ℤ → ℤ
wrap64 z =
    let u = (pos_part z + (2 ^ 64 - neg_part z % 2 ^ 64)) % 2 ^ 64 in
    if ltb u (2 ^ 63) then pos u else negsuc (2 ^ 64 - u - 1)

unfoldable pub mul64 : ℤ → ℤ → ℤ
unfolding wrap64
mul64 a b = wrap64 (
    sub_ℕ (pos_part a * pos_part b + neg_part a * neg_part b)
      (pos_part a * neg_part b + neg_part a * pos_part b))

unfoldable pub add64 : ℤ → ℤ → ℤ
unfolding wrap64 ◌+ℤ◌
add64 a b = wrap64 (a +ℤ b)

abbrev pub abs : ℤ → ℕ
abs (pos n) = n
abs (negsuc n) = suc n

abbrev pub is_zero : ℤ → Bool
is_zero z = abs z == 0

-- Go's `/` of a number that is not negative, which rounds towards zero.
abbrev pub quot : ℕ → ℤ → ℤ
quot n (pos m) = pos (n / m)
quot n (negsuc m) = sub_ℕ 0 (n / suc m)

pub record PagerImpl : Type 0 where
  pub page_size : ℤ
  pub page : ℤ
  pub total_page : ℤ
  pub fields : List String
  pub items : List String

-- A Go map from columns to directions, in the order in which this run iterates it.
abbrev pub FieldSort : Type 0
FieldSort = List (String × String)

unfoldable pub put_sort : String → String → FieldSort → FieldSort
put_sort c d [] = (c, d) ∷ []
put_sort c d ((b, e) ∷ l) =
    let rest = put_sort c d l in if str_eq b c then (b, d) ∷ l else (b, e) ∷ rest

unfoldable pub same_sort : String → List String → FieldSort → FieldSort
unfolding put_sort
same_sort d [] m = m
same_sort d (c ∷ cs) m = same_sort d cs (put_sort c d m)

unfoldable pub new_default_pager : FieldSort → PagerImpl
new_default_pager l = record {
  page_size = pos 0;
  page = pos 0;
  total_page = pos 0;
  fields = map (λ x. x.0) l;
  items = map (λ x. x.1) l;
}

-- `iterate` is the order in which the map is ranged over.
unfoldable pub desc_pager : (FieldSort → FieldSort) → String → List String → PagerImpl
unfolding new_default_pager same_sort
desc_pager iterate column columns =
    new_default_pager (iterate (same_sort "desc" columns ((column, "desc") ∷ [])))

unfoldable pub asc_pager : (FieldSort → FieldSort) → String → List String → PagerImpl
unfolding new_default_pager same_sort
asc_pager iterate column columns =
    new_default_pager (iterate (same_sort "asc" columns ((column, "asc") ∷ [])))

unfoldable pub custom_pager : (FieldSort → FieldSort) → FieldSort → PagerImpl
unfolding new_default_pager
custom_pager iterate field_sort = new_default_pager (iterate field_sort)

unfoldable pub set_page : ℤ → ℤ → PagerImpl → PagerImpl
set_page page page_size p = record p { page = page; page_size = page_size }

-- The column in backquotes, a space, and the direction.
abbrev pub order_arg : String → String → String
order_arg field item = concat "`" (concat field (concat "` " item))

-- The loop of `order` over both slices; `none` where `items` is too short.
unfoldable pub order_args : List String → List String → Option (List String)
order_args [] items = some []
order_args (f ∷ fs) [] = none
order_args (f ∷ fs) (s ∷ ss) = elim (order_args fs ss) [
  | none ↦ none
  | some rest ↦ some (order_arg f s ∷ rest)
]

unfoldable pub join : String → List String → String
join sep [] = ""
join sep (a ∷ []) = a
join sep (a ∷ b ∷ l) = concat a (concat sep (join sep (b ∷ l)))

-- The clauses that a query has got, in order.
pub data Clause : Type 0 where
  order_by : String → Clause
  order_by_primary_key : Clause
  offset limit : ℤ → Clause

-- The number of rows that meet the conditions of the query, and the errors of `Scan` and `Count`.
pub record DbAnswers : Type 0 where
  pub scan_error : Option ℕ
  pub rows : ℕ
  pub count_error : Option ℕ

abbrev pub order_clause : PagerImpl → Option Clause
order_clause p = elim p.fields [
  | [] ↦ some order_by_primary_key
  | f ∷ fs ↦ elim (order_args p.fields p.items) [
    | none ↦ none
    | some l ↦ some (order_by (join "," l))
  ]
]

abbrev pub pages : PagerImpl → Bool
pages p = not (is_zero p.page || is_zero p.page_size)

unfoldable pub page_clauses : PagerImpl → List Clause
unfolding mul64 add64
page_clauses p =
    if pages p
    then offset (mul64 (add64 p.page (negsuc 0)) p.page_size) ∷ limit p.page_size ∷ []
    else []

unfoldable pub count_pages : ℕ → ℤ → ℤ
unfolding add64
count_pages count page_size =
    if count % abs page_size == 0
    then pos (count % abs page_size)
    else add64 (quot count page_size) (pos 1)

-- gorm writes no `OFFSET` that is not positive.
abbrev pub skips : List Clause → Bool
skips [] = false
skips (order_by s ∷ cs) = skips cs
skips (order_by_primary_key ∷ cs) = skips cs
skips (limit z ∷ cs) = skips cs
skips (offset (pos n) ∷ cs) = not (n == 0) || skips cs
skips (offset (negsuc n) ∷ cs) = skips cs

-- What `Count` gives on the query of the page, whose clauses it keeps: `SELECT count(*)` has one row,
-- and an `OFFSET` leaves that out, so nothing is counted then.
unfoldable pub count_on : List Clause → ℕ → ℕ
count_on cs rows = if skips cs then 0 else rows

unfoldable pub set_total : DbAnswers → PagerImpl → Option ℕ × PagerImpl
unfolding count_pages count_on page_clauses
set_total a p = elim a.count_error [
  | some e ↦ (some e, p)
  | none ↦
      let count = count_on (page_clauses p) a.rows in
      (none, if count == 0 then p else record p { total_page = count_pages count p.page_size })
]

unfoldable pub after_scan : DbAnswers → PagerImpl → Option ℕ × PagerImpl
unfolding set_total
after_scan a p = elim a.scan_error [
  | some e ↦ (some e, p)
  | none ↦ if pages p then set_total a p else (none, p)
]

abbrev pub after_order :
    DbAnswers → PagerImpl → Option Clause → Option (List Clause × (Option ℕ × PagerImpl))
after_order a p none = none
after_order a p (some c) = some (c ∷ page_clauses p, after_scan a p)

-- `Execute`: the query, the error and the pager; `none` where `order` panics.
unfoldable pub execute_page : DbAnswers → PagerImpl → Option (List Clause × (Option ℕ × PagerImpl))
unfolding page_clauses after_scan order_args join
execute_page a p = after_order a p (order_clause p)
