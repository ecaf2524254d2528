-- ===== src/Plugins.antt =====
-- plugins: the action plugins that the operator is built with.
pub mod Kit
pub mod MeshShift
pub mod Annotate
pub mod Isolate
pub mod Suspend
pub mod Slack
pub mod Contract
pub mod BuiltIn
pub mod Steps
pub mod Needs
