-- ===== src/Api.antt =====
-- The API types of api/v1alpha1: the two custom resources and what they are made of.
pub mod Meta
pub mod Policy
pub mod Audit
pub use Meta.*
pub use Policy.{MetricSource, ComparisonOperator, FailurePolicy, PolicyState}
pub use Policy.{TargetKind, Observe, AuditSpec, ReactivePolicySpec}
pub use Policy.{ReactivePolicyStatus, ReactivePolicy}
pub use Audit.{ApprovalDecision, ApprovalPhase, ApprovalGate, AuditTarget, ResultStatus}
pub use Audit.{ActionRecord, ActionAuditSpec, RevertResult, ActionAuditStatus, ActionAudit}
pub use Audit.{status_is_unset}
unfoldable pub use Audit.{decision_eq}
