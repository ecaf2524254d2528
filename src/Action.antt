-- ===== src/Action.antt =====
-- internal/action: the plugin contract, the registry and the executor of a pipeline.
pub mod Types
pub mod Values
pub mod Registry
pub mod Permissions
pub mod Executor
