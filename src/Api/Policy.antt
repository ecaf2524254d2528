-- ===== src/Api/Policy.antt =====
-- api/v1alpha1/reactivepolicy_types.go. A Go string type with named constants is a data type with
-- one constructor for each, `unset` for the empty string and `other` for any other text; a
-- pointer is an `Option`; a metav1.Duration is its nanoseconds.
use reactive_policy.Common.{ℤ, Time, Duration, String, List, Option, Bool}
use reactive_policy.Api.Meta.{LabelSelector, Condition, ObjectMeta, RawParams}

pub data MetricSource : Type 0 where
  prometheus : MetricSource
  other : String → MetricSource

pub data ComparisonOperator : Type 0 where
  greater_than greater_than_or_equal less_than less_than_or_equal equal not_equal :
      ComparisonOperator
  other : String → ComparisonOperator

pub data FailurePolicy : Type 0 where
  unset continue stop rollback : FailurePolicy
  other : String → FailurePolicy

pub data PolicyState : Type 0 where
  unset watching triggering awaiting_approval cooldown rate_limited invalid : PolicyState

pub record TargetKind : Type 0 where
  pub api_version : String
  pub kind : String

pub record Target : Type 0 where
  pub selector : LabelSelector
  pub kinds : List TargetKind
  pub max_resources : Option ℤ

-- The secret reference is read by no code of the repository, and is left out.
pub record Observe : Type 0 where
  pub source : MetricSource
  pub endpoint : String
  pub query : String
  pub threshold : String
  pub operator : ComparisonOperator
  pub duration : Duration
  pub poll_interval : Duration

pub record Action : Type 0 where
  pub plugin : String
  pub params : RawParams
  pub on_failure : FailurePolicy
  pub requires_approval : Bool

pub record AuditSpec : Type 0 where
  pub retention : String

pub record ReactivePolicySpec : Type 0 where
  pub target : Target
  pub observe : Observe
  pub actions : List Action
  pub cooldown : Duration
  pub max_triggers_per_hour : Option ℤ
  pub allow_irreversible : Bool
  pub approval_timeout : Duration
  pub audit : Option AuditSpec

pub record ReactivePolicyStatus : Type 0 where
  pub state : PolicyState
  pub last_evaluated_at : Option Time
  pub last_triggered_at : Option Time
  pub trigger_count : ℤ  -- int32
  pub current_metric_value : String
  pub pending_gate_ref : String
  pub conditions : List Condition

pub record ReactivePolicy : Type 0 where
  pub metadata : ObjectMeta
  pub spec : ReactivePolicySpec
  pub status : ReactivePolicyStatus
