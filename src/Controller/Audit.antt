-- ===== src/Controller/Audit.antt =====
-- internal/controller/actionaudit_controller.go: the retention of audit records, the approval gate,
-- the revert of recorded actions, and the reconcile that chooses between them.
pub mod Retention
pub mod Revert
pub mod Closing
pub mod Gate
pub mod Reconcile
pub mod Idle
pub mod Overflow
pub mod Reversal
pub mod Released
pub mod Closed
