-- ===== src/Controller/Policy.antt =====
-- internal/controller/reactivepolicy_controller.go: the definitions, and the modules below that
-- prove what a reconcile does. `Trigger` is what runs once the condition is sustained, `Evaluate`
-- the query and the comparison, and `Gates` the checks before them.
pub mod Status
pub mod Trigger
pub mod Evaluate
pub mod Gates
pub mod Quiet
pub mod Confined
pub mod Fires
pub mod Gated
pub mod Recorded
pub mod Settled
