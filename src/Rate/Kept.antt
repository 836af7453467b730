-- ===== src/Rate/Kept.antt =====
-- infra/rate/rate.go: which rules are loaded after rules were added, and what `GetRules` tells of them.
use dt_go.Base.{
  ℕ, ◌^◌, ◌<◌, true, List, [], ◌∷◌, ◌++◌, map, ◌≡◌, refl, ap, subst, ◌↔◌, ◌⊎◌, inl, inr, In,
  In-append_left, In-append_right,
}
use native.Mathlib.Nat.{mod-eq_of_lt}
use dt_go.Base.Int.{ℤ, pos}
use dt_go.Rate.{
  ControlBehavior, reject, throttling, RateRuleConfiguration, Rule, behavior_text, flow_rule,
  flow_rules, configuration_of, FlowManager, add_rule, add_rules, get_rules,
}

In-append-cases : {A : Type 0} (a : A) (xs ys : List A) → In a (xs ++ ys) → In a xs ⊎ In a ys
In-append-cases a [] ys i = inr i
In-append-cases a (x ∷ xs) ys (inl e) = inl (inl e)
In-append-cases a (x ∷ xs) ys (inr i) = elim (In-append-cases a xs ys i) [
  | inl j ↦ inl (inr j)
  | inr j ↦ inr j
]

In-map : {A B : Type 0} (f : A → B) (a : A) (xs : List A) → In a xs → In (f a) (map f xs)
In-map f a [] x = absurd x
In-map f a (x ∷ xs) (inl e) = inl (ap f e)
In-map f a (x ∷ xs) (inr i) = inr (In-map f a xs i)

module _ (Float : Type 0) (flow : FlowManager Float) where
  -- Every rule that is loaded is valid, as it is after any load.
  abbrev pub AllValid : flow.State → Type 0
  AllValid s = (r : Rule Float) → In r (flow.loaded s) → flow.is_valid r ≡ true

  load-AllValid : (s : flow.State) (rs : List (Rule Float)) → AllValid (flow.load s rs)
  load-AllValid s rs r i = ((flow.loaded-load s rs r).0 i).1

  -- `AddRule` on each of the rules.
  abbrev pub add_each : List (RateRuleConfiguration Float) → flow.State → flow.State
  add_each [] s = s
  add_each (c ∷ cs) s = add_each cs (add_rule Float flow c s)

  -- The rule was loaded before or is one of those that are added.
  abbrev IsOld : List (RateRuleConfiguration Float) → flow.State → Rule Float → Type 0
  IsOld cs s r = (In r (flow.loaded s) ⊎ In r (flow_rules Float flow cs)) × (flow.is_valid r ≡ true)

  add_rules-In :
      (cs : List (RateRuleConfiguration Float)) (s : flow.State) (r : Rule Float)
      → In r (flow.loaded (add_rules Float flow cs s)) ↔ IsOld cs s r
  unfolding add_rules
  add_rules-In cs s r = (
    (λ i.
        let (j, v) = (flow.loaded-load s (flow.loaded s ++ flow_rules Float flow cs) r).0 i in
        (In-append-cases r (flow.loaded s) (flow_rules Float flow cs) j, v)),
    λ (j, v). (flow.loaded-load s (flow.loaded s ++ flow_rules Float flow cs) r).1 (
      elim j [
        | inl k ↦ In-append_left r (flow.loaded s) (flow_rules Float flow cs) k
        | inr k ↦ In-append_right r (flow.loaded s) (flow_rules Float flow cs) k
      ],
      v,
    ),
  )

  add_rule-In :
      (c : RateRuleConfiguration Float) (s : flow.State) (r : Rule Float)
      → In r (flow.loaded (add_rule Float flow c s)) ↔ IsOld (c ∷ []) s r
  unfolding add_rule add_rules
  add_rule-In c s r = add_rules-In (c ∷ []) s r

  add_rule-AllValid :
      (c : RateRuleConfiguration Float) (s : flow.State) → AllValid (add_rule Float flow c s)
  unfolding add_rule
  add_rule-AllValid c s = load-AllValid s (flow.loaded s ++ (flow_rule Float c ∷ []))

  add_each-In :
      (cs : List (RateRuleConfiguration Float)) (s : flow.State) (r : Rule Float)
      → AllValid s
      → In r (flow.loaded (add_each cs s)) ↔ IsOld cs s r
  add_each-In [] s r v = ((λ i. (inl i, v r i)), λ (j, w). elim j [ inl i ↦ i | inr x ↦ absurd x ])
  add_each-In (c ∷ cs) s r v =
      let t = add_rule Float flow c s in
      let later = add_each-In cs t r (add_rule-AllValid c s) in
      (
        (λ i.
            let (j, w) = later.0 i in
            elim j [
              | inr k ↦ (inr (inr k), w)
              | inl k ↦ elim ((add_rule-In c s r).0 k).0 [
                | inl old ↦ (inl old, w)
                | inr (inl e) ↦ (inr (inl e), w)
                | inr (inr x) ↦ absurd x
              ]
            ]),
        λ (j, w). later.1 (
          elim j [
            | inl old ↦ inl ((add_rule-In c s r).1 (inl old, w))
            | inr (inl e) ↦ inl ((add_rule-In c s r).1 (inr (inl e), w))
            | inr (inr k) ↦ inr k
          ],
          w,
        ),
      )

  -- Where all loaded rules are valid, as they are after any load: `AddRules` leaves exactly the rules
  -- loaded that `AddRule` leaves when it adds them one by one.
  pub add_rules-add_each :
      (cs : List (RateRuleConfiguration Float)) (s : flow.State) (r : Rule Float)
      → AllValid s
      → In r (flow.loaded (add_rules Float flow cs s)) ↔ In r (flow.loaded (add_each cs s))
  add_rules-add_each cs s r v = (
    (λ i. (add_each-In cs s r v).1 ((add_rules-In cs s r).0 i)),
    λ i. (add_rules-In cs s r).1 ((add_each-In cs s r v).0 i),
  )

  -- The time in a queue counts only for `Throttling`.
  abbrev pub kept_queueing : ControlBehavior → ℤ → ℤ
  kept_queueing reject n = pos 0
  kept_queueing throttling n = n

  told :
      (c : RateRuleConfiguration Float) (b : ControlBehavior) (q : ℕ)
      → c.token_calculate_strategy ≡ "Direct"
      → c.control_behavior ≡ behavior_text Float b
      → c.max_queueing_time_ms ≡ pos q
      → q < 2 ^ 32
      → configuration_of Float (flow_rule Float c)
        ≡ record c { stat_interval_in_ms = pos 0; max_queueing_time_ms = kept_queueing b (pos q) }
  unfolding configuration_of flow_rule
  told c reject q direct behaviour queueing small = rw (direct, behaviour) refl
  told c throttling q direct behaviour queueing small =
      rw (direct, behaviour, queueing, mod-eq_of_lt small) refl

  -- A valid rule that is added with a behaviour of sentinel, the strategy `Direct`, and a time in the
  -- queue of less than 2^32 ms is given back by `GetRules` with its interval set to 0, and for
  -- `Reject` with its time in the queue set to 0; all else is as it was added.
  pub get_rules-add_rule :
      (c : RateRuleConfiguration Float) (s : flow.State) (b : ControlBehavior) (q : ℕ)
      → flow.is_valid (flow_rule Float c) ≡ true
      → c.token_calculate_strategy ≡ "Direct"
      → c.control_behavior ≡ behavior_text Float b
      → c.max_queueing_time_ms ≡ pos q
      → q < 2 ^ 32
      → In
          (record c { stat_interval_in_ms = pos 0; max_queueing_time_ms = kept_queueing b (pos q) })
          (get_rules Float flow (add_rule Float flow c s))
  unfolding get_rules configuration_of
  get_rules-add_rule c s b q v direct behaviour queueing small =
      subst (λ x. In x (map (configuration_of Float) (flow.loaded (add_rule Float flow c s))))
        (told c b q direct behaviour queueing small)
        (In-map (configuration_of Float) (flow_rule Float c) (flow.loaded (add_rule Float flow c s))
          ((add_rule-In c s (flow_rule Float c)).1 (inr (inl refl), v)))
