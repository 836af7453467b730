-- ===== src/Pager/Pages.antt =====
-- Which rows the pages of infra/pager/db_pager.go hold, and how many pages it counts.
use dt_go.Base.{
  ℕ, zero, suc, ◌+◌, ◌*◌, ◌/◌, ◌%◌, ◌^◌, ◌≤◌, ◌<◌, ◌≡◌, ◌≢◌, refl, sym, ap, ◌∙◌, true, false, none,
  List, [], ◌∷◌, ◌++◌, ◌==◌, arith, take,
}
use native.Mathlib.Nat.{div-add-mod, div-le_self, mul-mod_left, mod-lt, zero-lt-suc}
use dt_go.Base.Int.{pos, negsuc, pos_part, sub_ℕ, ◌+ℤ◌}
use dt_go.Pager.{
  wrap64, mul64, add64, PagerImpl, set_page, Clause, order_by, order_by_primary_key, offset, limit,
  page_clauses, count_on, count_pages, DbAnswers, after_scan, set_total, pages,
}

wrap64-pos : (n : ℕ) → n < 2 ^ 63 → wrap64 (pos n) ≡ pos n
unfolding wrap64
wrap64-pos n h = ground (arith, h)

sub_ℕ-pos : (a : ℕ) → sub_ℕ a 0 ≡ pos a
sub_ℕ-pos a = ground arith

mul64-pos : (a b : ℕ) → a * b < 2 ^ 63 → mul64 (pos a) (pos b) ≡ pos (a * b)
unfolding mul64
mul64-pos a b h = ap wrap64 (product a b) ∙ wrap64-pos (a * b) h
  where
    product : (a b : ℕ) → sub_ℕ (a * b + 0 * 0) (a * 0 + 0 * b) ≡ pos (a * b)
    product a b = ground arith

add64-pos : (a b : ℕ) → a + b < 2 ^ 63 → add64 (pos a) (pos b) ≡ pos (a + b)
unfolding add64 ◌+ℤ◌
add64-pos a b h = ap wrap64 (sum a b) ∙ wrap64-pos (a + b) h
  where
    sum : (a b : ℕ) → sub_ℕ (a + b) 0 ≡ pos (a + b)
    sum a b = ground arith

pred64 : (k : ℕ) → k < 2 ^ 63 → add64 (pos (suc k)) (negsuc 0) ≡ pos k
unfolding add64 ◌+ℤ◌
pred64 k h = ap wrap64 (less k) ∙ wrap64-pos k h
  where
    less : (k : ℕ) → sub_ℕ (suc k + 0) (0 + 1) ≡ pos k
    less k = ground arith

pages-pos : (p : PagerImpl) (k s : ℕ) → pages (set_page (pos (suc k)) (pos (suc s)) p) ≡ true
unfolding set_page
pages-pos p k s = ground arith

-- The clauses of the k-th page, counted from 0.
page_clauses-pos :
    (p : PagerImpl) (k s : ℕ)
    → k * suc s < 2 ^ 63
    → k < 2 ^ 63
    → page_clauses (set_page (pos (suc k)) (pos (suc s)) p)
      ≡ offset (pos (k * suc s)) ∷ limit (pos (suc s)) ∷ []
unfolding page_clauses set_page
page_clauses-pos p k s small index = rw (pages-pos p k s) (
    ap (λ x. offset x ∷ limit (pos (suc s)) ∷ [])
      (ap (λ x. mul64 x (pos (suc s))) (pred64 k index) ∙ mul64-pos k (suc s) small))

-- What `OFFSET` and `LIMIT` leave of the rows.
abbrev pub drop {ℓ} : {A : Type ℓ} → ℕ → List A → List A
drop zero xs = xs
drop (suc n) [] = []
drop (suc n) (x ∷ xs) = drop n xs

abbrev pub rows_of {ℓ} : {A : Type ℓ} → List Clause → List A → List A
rows_of [] xs = xs
rows_of (order_by s ∷ cs) xs = rows_of cs xs
rows_of (order_by_primary_key ∷ cs) xs = rows_of cs xs
rows_of (offset z ∷ cs) xs = rows_of cs (drop (pos_part z) xs)
rows_of (limit z ∷ cs) xs = take (pos_part z) (rows_of cs xs)

by_zero : (m : ℕ) → m ≡ 0 + m
by_zero m = omega arith

by_suc : (n m : ℕ) → suc (n + m) ≡ suc n + m
by_suc n m = omega arith

no_pages : (s : ℕ) → 0 ≡ 0 * suc s
no_pages s = omega arith

one_more : (n s : ℕ) → n * suc s + suc s ≡ suc n * suc s
one_more n s = omega arith

pages_bound : (n s : ℕ) → suc n * suc s < 2 ^ 63 → (n * suc s < 2 ^ 63) × (n < 2 ^ 63)
pages_bound n s h = (omega (arith, h), omega (arith, h))

module _ {ℓ} {A : Type ℓ} where
  take_nil : (n : ℕ) → take {A = A} n [] ≡ []
  take_nil zero = refl
  take_nil (suc n) = refl

  take-drop : (n m : ℕ) (xs : List A) → take n xs ++ take m (drop n xs) ≡ take (n + m) xs
  take-drop zero m xs = ap (λ k. take k xs) (by_zero m)
  take-drop (suc n) m [] = take_nil m ∙ sym (take_nil (suc n + m))
  take-drop (suc n) m (x ∷ xs) =
      ap (λ l. x ∷ l) (take-drop n m xs) ∙ ap (λ k. take k (x ∷ xs)) (by_suc n m)

  -- The rows of the first n pages, one page after the other.
  abbrev pub first_pages : PagerImpl → ℕ → ℕ → List A → List A
  first_pages p s zero xs = []
  first_pages p s (suc n) xs =
      first_pages p s n xs ++ rows_of (page_clauses (set_page (pos (suc n)) (pos s) p)) xs

  -- The pages hold every row once: put one after the other, the first n pages are the first rows of
  -- the result, n times the size of a page, without gaps and repetitions, if that product does not
  -- overflow an int.
  pub pages_join :
      (p : PagerImpl) (s n : ℕ) (xs : List A)
      → n * suc s < 2 ^ 63
      → first_pages p (suc s) n xs ≡ take (n * suc s) xs
  pages_join p s zero xs small = ap (λ k. take k xs) (no_pages s)
  pages_join p s (suc n) xs small =
      let fits = pages_bound n s small in
      ap (λ l. l ++ rows_of (page_clauses (set_page (pos (suc n)) (pos (suc s)) p)) xs)
        (pages_join p s n xs fits.0)
      ∙ ap (λ c. take (n * suc s) xs ++ rows_of c xs) (page_clauses-pos p n s fits.0 fits.1)
      ∙ take-drop (n * suc s) (suc s) xs
      ∙ ap (λ k. take k xs) (one_more n s)

counted_first :
    (p : PagerImpl) (s rows : ℕ)
    → count_on (page_clauses (set_page (pos 1) (pos (suc s)) p)) rows ≡ rows
unfolding count_on
counted_first p s rows =
    ap (λ c. count_on c rows) (page_clauses-pos p 0 s (omega arith) (omega arith))
    ∙ ap (λ n. count_on (offset (pos n) ∷ limit (pos (suc s)) ∷ []) rows) (sym (no_pages s))

not_first : (k s : ℕ) → (suc k * suc s == 0) ≡ false
not_first k s = ground arith

counted_later :
    (p : PagerImpl) (k s rows : ℕ)
    → suc k * suc s < 2 ^ 63
    → suc k < 2 ^ 63
    → count_on (page_clauses (set_page (pos (suc (suc k))) (pos (suc s)) p)) rows ≡ 0
unfolding count_on
counted_later p k s rows small index =
    ap (λ c. count_on c rows) (page_clauses-pos p (suc k) s small index) ∙ rw (not_first k s) refl

set_total-some :
    (a : DbAnswers) (p : PagerImpl) (s : ℕ)
    → a.scan_error ≡ none
    → a.count_error ≡ none
    → (a.rows == 0) ≡ false
    → (after_scan a (set_page (pos 1) (pos (suc s)) p)).1.total_page
      ≡ count_pages a.rows (pos (suc s))
unfolding after_scan set_total set_page
set_total-some a p s scanned counted some_rows =
    rw (scanned, pages-pos p 0 s, counted, counted_first p s a.rows, some_rows) refl

set_total-same :
    (a : DbAnswers) (p : PagerImpl) → count_on (page_clauses p) a.rows ≡ 0 → (after_scan a p).1 ≡ p
unfolding after_scan set_total
set_total-same a p nothing = ground (arith, nothing)

==-false : {n : ℕ} → n ≢ 0 → (n == 0) ≡ false
==-false h = ground (arith, h)

quotient_small : (n s : ℕ) → n < 2 ^ 62 → n / suc s + 1 < 2 ^ 63
quotient_small n s h = omega (arith, h, div-le_self n (suc s))

multiple : (q s : ℕ) → (q * suc s) % suc s ≡ 0
multiple q s = mul-mod_left q (suc s)

count-some : (n s : ℕ) → n % suc s ≢ 0 → (n == 0) ≡ false
count-some n s rest = ==-false (λ e. rest (omega (arith, e, div-add-mod n (suc s))))

count_pages-rest :
    (n s : ℕ) → n < 2 ^ 62 → n % suc s ≢ 0 → count_pages n (pos (suc s)) ≡ pos (n / suc s + 1)
unfolding count_pages
count_pages-rest n s small rest =
    rw (==-false rest) (add64-pos (n / suc s) 1 (quotient_small n s small))

count_pages-even : (n s : ℕ) → n % suc s ≡ 0 → count_pages n (pos (suc s)) ≡ pos 0
unfolding count_pages
count_pages-even n s even = rw (even) refl

quotient_bounds :
    (n s : ℕ) → n % suc s ≢ 0 → (n ≤ (n / suc s + 1) * suc s) × ((n / suc s) * suc s < n)
quotient_bounds n s rest =
    let whole = div-add-mod n (suc s) in
    let part = mod-lt n (zero-lt-suc s) in (omega (arith, whole, part), omega (arith, whole, rest))

-- On the first page, where the rows do not fill the last page, `Execute` counts the pages that hold them:
-- as many as are needed, and no more. `Scan` and `Count` have succeeded, and there are fewer than 2 ^ 62
-- rows.
pub total_page_rest :
    (a : DbAnswers) (p : PagerImpl) (s : ℕ)
    → a.scan_error ≡ none
    → a.count_error ≡ none
    → a.rows < 2 ^ 62
    → a.rows % suc s ≢ 0
    → (t : ℕ) × ((after_scan a (set_page (pos 1) (pos (suc s)) p)).1.total_page ≡ pos t)
      × (a.rows ≤ t * suc s)
      × (t * suc s < a.rows + suc s)
total_page_rest a p s scanned counted small rest =
    let bounds = quotient_bounds a.rows s rest in
    (
      a.rows / suc s + 1,
      set_total-some a p s scanned counted (count-some a.rows s rest)
          ∙ count_pages-rest a.rows s small rest,
      bounds.0,
      omega (arith, bounds.1),
    )

-- On the first page, where the rows fill every page, `Execute` says that there are no pages, however
-- many there are: it takes the remainder of the division for the quotient.
pub total_page_even :
    (a : DbAnswers) (p : PagerImpl) (s q : ℕ)
    → a.scan_error ≡ none
    → a.count_error ≡ none
    → a.rows ≡ suc q * suc s
    → (after_scan a (set_page (pos 1) (pos (suc s)) p)).1.total_page ≡ pos 0
total_page_even a p s q scanned counted full =
    set_total-some a p s scanned counted (==-false (λ e. omega (arith, full, e)))
    ∙ count_pages-even a.rows s (ap (λ x. x % suc s) full ∙ multiple (suc q) s)

-- On a later page whose offset fits an int the number of pages stays what it was before the call,
-- however many rows there are: `Count` keeps the `OFFSET` of the page and finds nothing.
pub total_page_later :
    (a : DbAnswers) (p : PagerImpl) (k s : ℕ)
    → suc k * suc s < 2 ^ 63
    → suc k < 2 ^ 63
    → (after_scan a (set_page (pos (suc (suc k))) (pos (suc s)) p)).1.total_page ≡ p.total_page
unfolding set_page
total_page_later a p k s small index =
    ap (λ (q : PagerImpl). q.total_page)
      (set_total-same a (set_page (pos (suc (suc k))) (pos (suc s)) p)
        (counted_later p k s a.rows small index))
