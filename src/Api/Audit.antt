-- ===== src/Api/Audit.antt =====
-- api/v1alpha1/actionaudit_types.go, and the status strings that its records share with the
-- results of internal/action/interface.go.
use reactive_policy.Common.{ℤ, Time, String, List, Option, Bool, true, false, str_eq}
use reactive_policy.Api.Meta.{Condition, ObjectMeta}

pub data ApprovalDecision : Type 0 where
  unset approved denied : ApprovalDecision
  other : String → ApprovalDecision

-- The comparison of two decisions as strings.
unfoldable pub decision_eq : ApprovalDecision → ApprovalDecision → Bool
decision_eq unset unset = true
decision_eq approved approved = true
decision_eq denied denied = true
decision_eq (other s) (other t) = str_eq s t
decision_eq _ _ = false

pub data ApprovalPhase : Type 0 where
  unset pending approved denied expired : ApprovalPhase

-- ResultStatus, and the status strings of audit records.
pub data ResultStatus : Type 0 where
  unset succeeded failed skipped : ResultStatus
  other : String → ResultStatus

abbrev pub status_is_unset : ResultStatus → Bool
status_is_unset unset = true
status_is_unset _ = false

pub record AuditTarget : Type 0 where
  pub api_version : String
  pub kind : String
  pub name : String
  pub namespace : String

pub record ApprovalGate : Type 0 where
  pub action_index : ℤ  -- int32
  pub pending_plugins : List String
  pub targets : List AuditTarget
  pub expires_at : Time
  pub decision : ApprovalDecision
  pub decided_by : String
  pub decided_at : Option Time
  pub reason : String

-- `details` is the raw JSON; `none` is a nil pointer.
pub record ActionRecord : Type 0 where
  pub index : ℤ  -- int32
  pub action_id : String
  pub plugin : String
  pub target : AuditTarget
  pub status : ResultStatus
  pub message : String
  pub reversible : Bool
  pub details : Option String

pub record ActionAuditSpec : Type 0 where
  pub policy_ref : String
  pub policy_uid : String
  pub triggered_at : Time
  pub metric_value : String
  pub actions : List ActionRecord
  pub revert_requested : Bool
  pub gate : Option ApprovalGate

pub record RevertResult : Type 0 where
  pub index : ℤ  -- int32
  pub plugin : String
  pub status : ResultStatus
  pub message : String

pub record ActionAuditStatus : Type 0 where
  pub reverted : Bool
  pub reverted_at : Option Time
  pub revert_results : List RevertResult
  pub approval_phase : ApprovalPhase
  pub resumed_at : Option Time
  pub conditions : List Condition

pub record ActionAudit : Type 0 where
  pub metadata : ObjectMeta
  pub spec : ActionAuditSpec
  pub status : ActionAuditStatus
