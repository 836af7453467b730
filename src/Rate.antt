-- ===== src/Rate.antt =====
-- infra/rate/rate.go and `ConfigureRateRule` of config/config.go: flow rules between the configuration
-- and sentinel, whose manager of rules is an interface with what sentinel documents of it. A float64
-- is of any type.
pub mod Kept
mod Tests
use dt_go.Base.{
  ℕ, ◌+◌, ◌-◌, ◌%◌, ◌^◌, Bool, true, false, Option, none, some, List, [], ◌∷◌, ◌++◌, map, String,
  str_eq, if◌then◌else◌, ◌≡◌, refl, ◌↔◌, In, keep, keep-In,
}
use dt_go.Base.Int.{ℤ, pos, negsuc}

pub data ControlBehavior : Type 0 where
  reject throttling : ControlBehavior

-- `uint32(n)` of an int.
abbrev pub to_uint32 : ℤ → ℕ
to_uint32 (pos n) = n % 2 ^ 32
to_uint32 (negsuc n) = 2 ^ 32 - 1 - n % 2 ^ 32

pub data ResourceType : Type 0 where
  common web rpc api_gateway db_sql cache mq : ResourceType

pub data TrafficType : Type 0 where
  inbound outbound : TrafficType

-- The options of one entry.
pub record RateLimit : Type 0 where
  pub resource_type : ResourceType
  pub traffic_type : TrafficType

abbrev pub begin_request : RateLimit → RateLimit
begin_request rate = record { resource_type = common; traffic_type = inbound }

pub data RateLimitOption : Type 0 where
  with_resource_type : ResourceType → RateLimitOption
  with_traffic_type : TrafficType → RateLimitOption

abbrev pub apply_option : RateLimit → RateLimitOption → RateLimit
apply_option rate (with_resource_type t) = record rate { resource_type = t }
apply_option rate (with_traffic_type t) = record rate { traffic_type = t }

-- `Entry`: the component after the options, which are what sentinel is asked with.
unfoldable pub entry : RateLimit → List RateLimitOption → RateLimit
entry rate [] = rate
entry rate (o ∷ os) = entry (apply_option rate o) os

module _ (Float : Type 0) where
  pub record RateRuleConfiguration : Type 0 where
    pub resource : String
    pub token_calculate_strategy : String
    pub control_behavior : String
    pub threshold : Float
    pub max_queueing_time_ms : ℤ
    pub stat_interval_in_ms : ℤ

  -- `flow.Rule`, as far as the code sets it; its strategy is `flow.Direct`.
  pub record Rule : Type 0 where
    pub rule_resource : String
    pub rule_threshold : Float
    pub rule_behavior : ControlBehavior
    pub rule_interval : ℕ
    pub rule_queueing : ℕ

  abbrev pub behavior_of : String → ControlBehavior
  behavior_of s = if str_eq s "Throttling" then throttling else reject

  abbrev pub queueing_of : ControlBehavior → ℤ → ℕ
  queueing_of reject n = 0
  queueing_of throttling n = to_uint32 n

  unfoldable pub flow_rule : RateRuleConfiguration → Rule
  flow_rule c = record {
    rule_resource = c.resource;
    rule_threshold = c.threshold;
    rule_behavior = behavior_of c.control_behavior;
    rule_interval = to_uint32 c.stat_interval_in_ms;
    rule_queueing = queueing_of (behavior_of c.control_behavior) c.max_queueing_time_ms;
  }

  abbrev pub behavior_text : ControlBehavior → String
  behavior_text reject = "Reject"
  behavior_text throttling = "Throttling"

  -- One round of the loop of `GetRules`.
  unfoldable pub configuration_of : Rule → RateRuleConfiguration
  configuration_of r = record {
    resource = r.rule_resource;
    token_calculate_strategy = "Direct";
    control_behavior = behavior_text r.rule_behavior;
    threshold = r.rule_threshold;
    max_queueing_time_ms = pos r.rule_queueing;
    stat_interval_in_ms = pos 0;
  }

  -- sentinel's manager: what is loaded replaces what was there, less the rules that are not valid.
  pub record FlowManager : Type 1 where
    pub State : Type 0
    pub is_valid : Rule → Bool
    pub loaded : State → List Rule
    pub load : State → List Rule → State
    pub loaded-load :
        (s : State) (rs : List Rule) (r : Rule)
        → In r (loaded (load s rs)) ↔ (In r rs × (is_valid r ≡ true))

  -- The interface can be met: the state is the list of rules.
  abbrev pub list_manager : (Rule → Bool) → FlowManager
  list_manager valid = record {
    State = List Rule;
    is_valid = valid;
    loaded = λ s. s;
    load = λ s rs. keep valid rs;
    loaded-load = λ s rs r. keep-In valid r rs;
  }

  module _ (flow : FlowManager) where
    unfoldable pub add_rule : RateRuleConfiguration → flow.State → flow.State
    unfolding flow_rule
    add_rule c s = flow.load s (flow.loaded s ++ (flow_rule c ∷ []))

    abbrev pub flow_rules : List RateRuleConfiguration → List Rule
    flow_rules cs = map flow_rule cs

    unfoldable pub add_rules : List RateRuleConfiguration → flow.State → flow.State
    unfolding flow_rule
    add_rules cs s = flow.load s (flow.loaded s ++ flow_rules cs)

    unfoldable pub get_rules : flow.State → List RateRuleConfiguration
    unfolding configuration_of
    get_rules s = map configuration_of (flow.loaded s)

    -- `ConfigureRateRule` on the rules of its file; what was loaded before is gone.
    unfoldable pub configure_rate_rule : List RateRuleConfiguration → flow.State → flow.State
    unfolding flow_rule
    configure_rate_rule cs s = flow.load s (flow_rules cs)
