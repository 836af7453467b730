-- ===== src/Rate/Tests.antt =====
-- The theorems about infra/rate/rate.go over a manager that keeps a list of rules.
use dt_go.Base.{ℕ, true, [], ◌∷◌, ◌≡◌, refl}
use dt_go.Base.Int.{pos, negsuc}
use dt_go.Rate.{
  RateRuleConfiguration, FlowManager, list_manager, to_uint32, entry, with_resource_type, web,
  inbound, common,
}
use dt_go.Rate.Kept.{AllValid}

abbrev manager : FlowManager ℕ
manager = list_manager ℕ (λ r. true)

abbrev slow : RateRuleConfiguration ℕ
slow = record {
  resource = "GET:/goods";
  token_calculate_strategy = "Direct";
  control_behavior = "Throttling";
  threshold = 10;
  max_queueing_time_ms = pos 500;
  stat_interval_in_ms = pos 1000;
}

abbrev strict : RateRuleConfiguration ℕ
strict = record slow { resource = "POST:/orders"; control_behavior = "Reject" }

none_loaded : AllValid ℕ manager []
none_loaded r i = absurd i

minus_one : to_uint32 (negsuc 0) ≡ 4294967295
minus_one = refl

-- An option of one entry stays for the next one of the same request.
remembers :
    entry
      (entry
        (record { resource_type = common; traffic_type = inbound })
        (with_resource_type web ∷ []))
      []
    ≡ record { resource_type = web; traffic_type = inbound }
unfolding entry
remembers = refl
