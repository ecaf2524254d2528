-- ===== src/Plugins/MeshShift.antt =====
-- plugins/mesh-shift: drain a backend by its weight on an HTTPRoute, and put the weights back.
pub mod Weights
pub mod RoundTrip
pub mod Refs
pub mod Shift
pub mod Undo
pub mod Drained
