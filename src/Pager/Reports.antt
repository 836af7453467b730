-- ===== src/Pager/Reports.antt =====
-- The errors that `Execute` of infra/pager/db_pager.go reports.
use dt_go.Base.{
  ℕ, ◌≡◌, refl, ap, ◌∙◌, Option, none, some, List, [], ◌∷◌, if◌then◌else◌, arith, map, String,
}
use dt_go.Base.Int.{ℤ}
use dt_go.Pager.{
  PagerImpl, set_page, Clause, order_by, order_by_primary_key, page_clauses, execute_page,
  DbAnswers, after_scan, set_total, count_on, pages, FieldSort, order_args, order_arg, order_clause,
  after_order, join, new_default_pager,
}

order_args-total :
    (l : FieldSort)
    → (o : List String) × (order_args (map (λ x. x.0) l) (map (λ x. x.1) l) ≡ some o)
unfolding order_args
order_args-total [] = ([], refl)
order_args-total ((c, d) ∷ l) = let (o, e) = order_args-total l in (order_arg c d ∷ o, rw (e) refl)

-- The error of the first statement that fails: `Scan`, or `Count` where there is a page.
abbrev pub first_error : DbAnswers → PagerImpl → Option ℕ
first_error a p = elim a.scan_error [
  | some e ↦ some e
  | none ↦ if pages p then a.count_error else none
]

after_scan-error : (a : DbAnswers) (p : PagerImpl) → (after_scan a p).0 ≡ first_error a p
unfolding after_scan set_total count_on
after_scan-error a p = ground arith

order_clause-total :
    (l : FieldSort) (page size : ℤ)
    → (c : Clause) × (order_clause (set_page page size (new_default_pager l)) ≡ some c)
unfolding set_page new_default_pager order_args join
order_clause-total [] page size = (order_by_primary_key, refl)
order_clause-total ((c, d) ∷ l) page size =
    let (o, e) = order_args-total ((c, d) ∷ l) in (order_by (join "," o), rw (e) refl)

-- The pager after an error is the one before; without an error it may be another.
abbrev pub kept_on : Option ℕ → PagerImpl → PagerImpl → PagerImpl
kept_on none p q = q
kept_on (some e) p q = p

after_scan-kept_on :
    (a : DbAnswers) (p : PagerImpl)
    → (after_scan a p).1 ≡ kept_on (first_error a p) p (after_scan a p).1
unfolding after_scan set_total count_on
after_scan-kept_on a p = ground arith

-- `Execute` on a new pager never panics, whatever columns and page it has been given: it returns the
-- error of the first statement that fails, and then the pager is as before.
pub execute_page_reports :
    (a : DbAnswers) (l : FieldSort) (page size : ℤ)
    → let p = set_page page size (new_default_pager l) in
      (cs : List Clause) × (q : PagerImpl) × (execute_page a p ≡ some (cs, (first_error a p, q)))
      × (q ≡ kept_on (first_error a p) p q)
unfolding execute_page
execute_page_reports a l page size =
    let p = set_page page size (new_default_pager l) in
    let (c, e) = order_clause-total l page size in
    (
      c ∷ page_clauses p,
      (after_scan a p).1,
      ap (after_order a p) e
          ∙ ap (λ x. some (c ∷ page_clauses p, (x, (after_scan a p).1))) (after_scan-error a p),
      after_scan-kept_on a p,
    )
