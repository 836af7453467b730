-- ===== src/DomainEvent/Retry/Ends.antt =====
-- The retry loop of infra/domainevent/manager.go ends.
use dt_go.Base.{
  ℕ, zero, suc, ◌+◌, ◌≤◌, ◌<◌, ◌≡◌, refl, ap, Bool, true, false, Option, none, some, List, [], ◌∷◌,
  take, length, All, All-take, In, ◌⊎◌, inl, inr, arith, ◌==◌, if◌then◌else◌, All-In, subst, sym,
}
use dt_go.DomainEvent.Retry.{
  TableRow, Handled, Answers, Progress, failed_rows, delete_event, scan_rows, get_fail_events,
  deliver, handle_events, over_fetched, retry, retry_loop, single_retry_num,
}

abbrev pub failed_count : List TableRow → ℕ
failed_count table = length (failed_rows table)

-- The row stands in the table and has failed.
abbrev pub IsFailedIn : List TableRow → TableRow → Type 0
IsFailedIn table r = In r (failed_rows table)

count-delete_le :
    (id : ℕ) (table : List TableRow) → failed_count (delete_event id table) ≤ failed_count table
unfolding failed_rows delete_event
count-delete_le id [] = omega arith
count-delete_le id (r ∷ rs) = ground (arith, count-delete_le id rs)

failed_cons :
    (r x : TableRow) (xs : List TableRow)
    → IsFailedIn (x ∷ xs) r
    → (((x.status == 1) ≡ true) × (x ≡ r)) ⊎ IsFailedIn xs r
unfolding failed_rows
failed_cons r x xs h = go (x.status == 1) refl h
  where
    go :
        (b : Bool)
        → (x.status == 1) ≡ b
        → In r (if b then x ∷ failed_rows xs else failed_rows xs)
        → (((x.status == 1) ≡ true) × (x ≡ r)) ⊎ IsFailedIn xs r
    go true e (inl same) = inl (e, same)
    go true e (inr later) = inr later
    go false e later = inr later

count-delete_lt :
    (r : TableRow) (table : List TableRow)
    → IsFailedIn table r
    → failed_count (delete_event r.id table) < failed_count table
unfolding failed_rows delete_event
count-delete_lt r [] h = absurd h
count-delete_lt r (x ∷ xs) h = go (count-delete_lt r xs) (failed_cons r x xs h)
  where
    go :
        (IsFailedIn xs r → failed_count (delete_event r.id xs) < failed_count xs)
        → (((x.status == 1) ≡ true) × (x ≡ r)) ⊎ IsFailedIn xs r
        → failed_count (delete_event r.id (x ∷ xs)) < failed_count (x ∷ xs)
    go smaller (inl (failed, same)) =
        ground (arith, ap (λ (t : TableRow). t.id) same, count-delete_le r.id xs)
    go smaller (inr later) = ground (arith, smaller later)

handle_events-le :
    (a : Answers) (handler : TableRow → Handled) (rs : List TableRow) (err : Bool) (p : Progress)
    → failed_count (handle_events a handler rs err p).1.table ≤ failed_count p.table
unfolding handle_events
handle_events-le a handler [] err p = omega arith
handle_events-le a handler (r ∷ rs) err p = ground (
  arith,
  handle_events-le a handler rs false (deliver a r p),
  handle_events-le a handler rs true p,
  count-delete_le r.id p.table,
)

-- If the last event is handled, at least one failed row is gone.
handle_events-lt :
    (a : Answers) (handler : TableRow → Handled) (rs : List TableRow) (p : Progress)
    → ((id : ℕ) → a.deletes id ≡ true)
    → All (IsFailedIn p.table) rs
    → (handle_events a handler rs true p).0 ≡ false
    → failed_count (handle_events a handler rs true p).1.table < failed_count p.table
unfolding handle_events
handle_events-lt a handler [] p works known done = cc
handle_events-lt a handler (r ∷ rs) p works known done = ground (
  arith,
  works r.id,
  handle_events-le a handler rs false (deliver a r p),
  handle_events-lt a handler rs p works known.1,
  count-delete_lt r p.table known.0,
)

scan_rows-some :
    (scan_error : TableRow → Bool) (rs l : List TableRow)
    → scan_rows scan_error rs ≡ some l
    → l ≡ rs
unfolding scan_rows
scan_rows-some scan_error [] l e = cc
scan_rows-some scan_error (r ∷ rs) l e =
    go (scan_rows scan_error rs) (scan_rows-some scan_error rs) e
  where
    go :
        (o : Option (List TableRow))
        → ((k : List TableRow) → o ≡ some k → k ≡ rs)
        → (if scan_error r then none else elim o [ none ↦ none | some k ↦ some (r ∷ k) ]) ≡ some l
        → l ≡ r ∷ rs
    go none ih f = ground arith
    go (some k) ih f = ground (arith, ih k refl)

failed_self : (table : List TableRow) → All (IsFailedIn table) (failed_rows table)
failed_self table = All-In (failed_rows table)

fetched-failed :
    (a : Answers) (n : ℕ) (table l : List TableRow)
    → get_fail_events a n table ≡ some l
    → All (IsFailedIn table) l
unfolding get_fail_events
fetched-failed a n table l e =
    subst (All (IsFailedIn table))
      (sym (scan_rows-some a.scan_error (take n (failed_rows table)) l (ground (arith, e))))
      (All-take (IsFailedIn table) n (failed_rows table) (failed_self table))

-- Where `DELETE` works, a round that does not wait for the timer leaves fewer failed rows.
retry-lt :
    (a : Answers) (handler : TableRow → Handled) (p : Progress)
    → ((id : ℕ) → a.deletes id ≡ true)
    → (retry a handler p).0 ≡ false
    → failed_count (retry a handler p).1.table < failed_count p.table
unfolding retry
retry-lt a handler p works done = go (get_fail_events a single_retry_num p.table) refl done
  where
    go :
        (o : Option (List TableRow))
        → get_fail_events a single_retry_num p.table ≡ o
        → (over_fetched a handler o p).0 ≡ false
        → failed_count (over_fetched a handler o p).1.table < failed_count p.table
    go none e d = cc
    go (some []) e d = cc
    go (some (r ∷ rs)) e d =
        unfold handle_events in
        handle_events-lt a handler (r ∷ rs) p works
          (fetched-failed a single_retry_num p.table (r ∷ rs) e) d

-- The retry loop goes back to waiting for the timer, whatever the handler does in each round, if the
-- `DELETE` statements work: as many rounds as there are failed rows, and one more, are enough.
pub retry_loop_ends :
    (fuel : ℕ) (answers : ℕ → Answers) (handler : ℕ → TableRow → Handled) (i : ℕ) (p : Progress)
    → ((j id : ℕ) → (answers j).deletes id ≡ true)
    → failed_count p.table < fuel
    → (q : Progress) × (retry_loop fuel answers handler i p ≡ some q)
unfolding retry_loop
retry_loop_ends zero answers handler i p works enough = absurd (omega arith)
retry_loop_ends (suc fuel) answers handler i p works enough =
    go (retry (answers i) (handler i) p) (retry-lt (answers i) (handler i) p (works i))
      (λ q less. retry_loop_ends fuel answers handler (i + 1) q works (omega arith))
  where
    go :
        (r : Bool × Progress)
        → (r.0 ≡ false → failed_count r.1.table < failed_count p.table)
        → ((q : Progress)
            → failed_count q.table < failed_count p.table
            → (z : Progress) × (retry_loop fuel answers handler (i + 1) q ≡ some z))
        → (z : Progress) × ((elim r.0 [
          | true ↦ some r.1
          | false ↦ retry_loop fuel answers handler (i + 1) r.1
        ])
            ≡ some z)
    go (true, q) less again = (q, refl)
    go (false, q) less again = again q (less refl)
