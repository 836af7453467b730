-- ===== src/Language/Intersection.antt =====
-- utils/utils.go: `HasIntersection` says whether the lists share a text.
use dt_go.Base.{
  Bool, true, false, List, [], ◌∷◌, ◌||◌, ◌≡◌, refl, ap, ◌↔◌, ◌⊎◌, inl, inr, In, arith, Bool-cases,
}
use dt_go.Base.Bytes.{Bytes, eq_bytes, eq_bytes_iff}
use dt_go.Language.{is_one_of, has_intersection}

or-cases : (a b : Bool) → a || b ≡ true → (a ≡ true) ⊎ (b ≡ true)
or-cases true b h = inl refl
or-cases false b h = inr h

is_one_of-In : (ws : List Bytes) (s : Bytes) → is_one_of ws s ≡ true → In s ws
is_one_of-In [] s h = absurd (ground (arith, h))
is_one_of-In (w ∷ ws) s h = elim (or-cases (eq_bytes w s) (is_one_of ws s) h) [
  | inl e ↦ inl ((eq_bytes_iff w s).0 e)
  | inr r ↦ inr (is_one_of-In ws s r)
]

In-is_one_of : (ws : List Bytes) (s : Bytes) → In s ws → is_one_of ws s ≡ true
In-is_one_of [] s i = absurd i
In-is_one_of (w ∷ ws) s (inl e) = ground (arith, (eq_bytes_iff w s).1 e)
In-is_one_of (w ∷ ws) s (inr i) = ground (arith, In-is_one_of ws s i)

-- `HasIntersection` is true exactly where some text stands in both lists.
pub has_intersection-In :
    (a b : List Bytes) → (has_intersection a b ≡ true) ↔ ((x : Bytes) × In x a × In x b)
unfolding has_intersection
has_intersection-In a [] = ((λ h. absurd (ground (arith, h))), λ h. absurd h.2)
has_intersection-In a (y ∷ b) = elim (Bool-cases (is_one_of a y)) [
  | inl e ↦ ((λ h. (y, is_one_of-In a y e, inl refl)), λ h. rw e refl)
  | inr e ↦ (
    (λ h. let (x, i, j) = (has_intersection-In a b).0 (rw e at h) in (x, i, inr j)),
    λ (x, i, j). elim j [
      | inl same ↦ absurd (ground (arith, e, In-is_one_of a x i, ap (is_one_of a) same))
      | inr later ↦ rw e ((has_intersection-In a b).1 (x, i, later))
    ],
  )
]
