-- ===== src/Dlm/Dogs.antt =====
-- The list of running watchdogs: what a turn, a cancellation and the clock leave of one of them.
use dt_go.Base.{
  ℕ, zero, suc, ◌+◌, ◌/◌, ◌≤◌, ◌<◌, ◌≡◌, ◌⊎◌, inl, inr, refl, subst, ap, Bool, true, false, ◌&&◌,
  leb, ◌==◌, Option, some, List, [], ◌∷◌, In, All, arith, if◌then◌else◌,
}
use mathlib.Core.Bool.{true≢false}
use mathlib.Core.Option.{some-injective, none-ne-some}
use dt_go.Dlm.{Watchdog, without_dog, without_owner, none_due, turn, fire}

module _ {A : Type 0} (a x : A) (rest : List A) where
  In-skip : (b : Bool) → In a rest → In a (if b then rest else x ∷ rest)
  In-skip true h = h
  In-skip false h = inr h

  In-here : (b : Bool) → b ≡ false → x ≡ a → In a (if b then rest else x ∷ rest)
  In-here true f e = absurd (true≢false f)
  In-here false f e = inl e

  All-kept {κ} :
      (P : A → Type κ) (b : Bool) → P x → All P rest → All P (if b then rest else x ∷ rest)
  All-kept P true h hs = hs
  All-kept P false h hs = (h, hs)

-- The watchdog after its turn.
abbrev pub advanced : Watchdog → Watchdog
advanced d = record d { next = d.next + d.expiration / 3 }

-- Where a watchdog is after the turn of one in the list.
abbrev pub Afterwards : ℕ → Watchdog → Option Watchdog × List Watchdog → Type 0
Afterwards now D r = In D r.1 ⊎ ((r.0 ≡ some D) × (D.next ≤ now) × In (advanced D) r.1)

turn-Afterwards :
    (now : ℕ) (D d : Watchdog) (ds : List Watchdog) (b : Bool)
    → (b ≡ true → d.next ≤ now)
    → In D (d ∷ ds)
    → Afterwards now D (turn b d ds)
turn-Afterwards now D d ds false due h = inl h
turn-Afterwards now D d ds true due (inr h) = inl (inr h)
turn-Afterwards now D d ds true due (inl e) =
    inr (ap some e, subst (λ x. x.next ≤ now) e (due refl), inl (ap advanced e))

pub fire-Afterwards :
    (now n : ℕ) (D : Watchdog) (ds : List Watchdog) → In D ds → Afterwards now D (fire now n ds)
unfolding fire
fire-Afterwards now n D [] h = absurd h
fire-Afterwards now zero D (d ∷ ds) h =
    turn-Afterwards now D d ds (leb d.next now) (λ t. ground (arith, t)) h
fire-Afterwards now (suc n) D (d ∷ ds) (inl e) = inl (inl e)
fire-Afterwards now (suc n) D (d ∷ ds) (inr h) = elim (fire-Afterwards now n D ds h) [
  | inl k ↦ inl (inr k)
  | inr k ↦ inr (k.0, k.1, inr k.2)
]

pub without_dog-In :
    (i g : ℕ) (D : Watchdog) (ds : List Watchdog)
    → (D.owner == i) ≡ false
    → In D ds
    → In D (without_dog i g ds)
unfolding without_dog
without_dog-In i g D [] other h = absurd h
without_dog-In i g D (d ∷ ds) other (inl e) =
    In-here D d (without_dog i g ds) ((d.owner == i) && (d.id == g))
      (ground (arith, other, ap (λ x. x.owner) e)) e
without_dog-In i g D (d ∷ ds) other (inr h) =
    In-skip D d (without_dog i g ds) ((d.owner == i) && (d.id == g))
      (without_dog-In i g D ds other h)

pub without_owner-In :
    (i : ℕ) (D : Watchdog) (ds : List Watchdog)
    → (D.owner == i) ≡ false
    → In D ds
    → In D (without_owner i ds)
unfolding without_owner
without_owner-In i D [] other h = absurd h
without_owner-In i D (d ∷ ds) other (inl e) =
    In-here D d (without_owner i ds) (d.owner == i) (ground (arith, other, ap (λ x. x.owner) e)) e
without_owner-In i D (d ∷ ds) other (inr h) =
    In-skip D d (without_owner i ds) (d.owner == i) (without_owner-In i D ds other h)

pub none_due-In :
    (now : ℕ) (D : Watchdog) (ds : List Watchdog) → none_due now ds ≡ true → In D ds → now < D.next
unfolding none_due
none_due-In now D [] due h = absurd h
none_due-In now D (d ∷ ds) due (inl e) = ground (arith, due, ap (λ x. x.next) e)
none_due-In now D (d ∷ ds) due (inr h) = none_due-In now D ds (ground (arith, due)) h

-- Every running watchdog has the expiration `ex`.
abbrev pub AllPeriods : ℕ → List Watchdog → Type 0
AllPeriods ex ds = All (λ (dog : Watchdog). dog.expiration ≡ ex) ds

turn-AllPeriods :
    (ex : ℕ) (d : Watchdog) (ds : List Watchdog) (b : Bool)
    → AllPeriods ex (d ∷ ds)
    → AllPeriods ex (turn b d ds).1
      × ((x : Watchdog) → (turn b d ds).0 ≡ some x → x.expiration ≡ ex)
turn-AllPeriods ex d ds true h =
    ((h.0, h.1), λ x e. subst (λ (y : Watchdog). y.expiration ≡ ex) (some-injective d x e) h.0)
turn-AllPeriods ex d ds false h = (h, λ x e. absurd (none-ne-some x e))

pub fire-AllPeriods :
    (ex now n : ℕ) (ds : List Watchdog)
    → AllPeriods ex ds
    → AllPeriods ex (fire now n ds).1
      × ((x : Watchdog) → (fire now n ds).0 ≡ some x → x.expiration ≡ ex)
unfolding fire
fire-AllPeriods ex now n [] h = (h, λ x e. absurd (none-ne-some x e))
fire-AllPeriods ex now zero (d ∷ ds) h = turn-AllPeriods ex d ds (leb d.next now) h
fire-AllPeriods ex now (suc n) (d ∷ ds) h =
    let rest = fire-AllPeriods ex now n ds h.1 in ((h.0, rest.0), rest.1)

pub without_dog-AllPeriods :
    (ex i g : ℕ) (ds : List Watchdog) → AllPeriods ex ds → AllPeriods ex (without_dog i g ds)
unfolding without_dog
without_dog-AllPeriods ex i g [] h = tt
without_dog-AllPeriods ex i g (d ∷ ds) h =
    All-kept d d (without_dog i g ds) (λ x. x.expiration ≡ ex) ((d.owner == i) && (d.id == g)) h.0
      (without_dog-AllPeriods ex i g ds h.1)

pub without_owner-AllPeriods :
    (ex i : ℕ) (ds : List Watchdog) → AllPeriods ex ds → AllPeriods ex (without_owner i ds)
unfolding without_owner
without_owner-AllPeriods ex i [] h = tt
without_owner-AllPeriods ex i (d ∷ ds) h =
    All-kept d d (without_owner i ds) (λ x. x.expiration ≡ ex) (d.owner == i) h.0
      (without_owner-AllPeriods ex i ds h.1)
