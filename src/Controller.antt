-- ===== src/Controller.antt =====
-- internal/controller: the two reconcilers, the rate limiter and the writer of audit records.
pub mod Limiter
pub mod AuditWriter
pub mod System
pub mod Policy
pub mod Audit
