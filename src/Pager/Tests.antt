-- ===== src/Pager/Tests.antt =====
-- The theorems about infra/pager/db_pager.go at concrete data.
use dt_go.Base.{ℕ, ◌+◌, ◌*◌, ◌≤◌, ◌<◌, ◌≡◌, refl, none, some, List, [], ◌∷◌, take, arith}
use dt_go.Base.Int.{pos}
use dt_go.Pager.{
  PagerImpl, DbAnswers, set_page, new_default_pager, after_scan, execute_page, order_by, offset,
  limit, order_args, join, page_clauses, mul64, add64, wrap64, set_total, count_on, count_pages,
}
use dt_go.Pager.Pages.{first_pages, pages_join, total_page_rest}

abbrev by_name : PagerImpl
by_name = new_default_pager (("name", "desc") ∷ ("age", "asc") ∷ [])

abbrev counted : ℕ → DbAnswers
counted n = record { scan_error = none; rows = n; count_error = none }

query :
    execute_page (counted 7) (set_page (pos 2) (pos 3) by_name)
    ≡ some (
      order_by "`name` desc,`age` asc" ∷ offset (pos 3) ∷ limit (pos 3) ∷ [],
      (
        none,
        record {
          page_size = pos 3;
          page = pos 2;
          total_page = pos 0;
          fields = "name" ∷ "age" ∷ [];
          items = "desc" ∷ "asc" ∷ [];
        },
      ),
    )
unfolding execute_page set_page new_default_pager order_args join page_clauses mul64 add64 wrap64
    after_scan set_total count_on count_pages
query = refl

abbrev seven : List ℕ
seven = 1 ∷ 2 ∷ 3 ∷ 4 ∷ 5 ∷ 6 ∷ 7 ∷ []

pages_join_example : first_pages by_name 3 2 seven ≡ take 6 seven
pages_join_example = pages_join by_name 2 2 seven (omega arith)

total_page_rest_example :
    (t : ℕ) × ((after_scan (counted 7) (set_page (pos 1) (pos 3) by_name)).1.total_page ≡ pos t)
    × (7 ≤ t * 3)
    × (t * 3 < 7 + 3)
total_page_rest_example =
    total_page_rest (counted 7) by_name 2 refl refl (omega arith) (λ e. omega (arith, e))

abbrev broken : DbAnswers
broken = record { scan_error = none; rows = 0; count_error = some 4 }
