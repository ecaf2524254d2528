-- ===== src/Plugins/Isolate.antt =====
-- plugins/network-isolate: a NetworkPolicy around the target's pods. The decoding of its params is
-- encoding/json's.
pub mod Policy
pub mod Traffic
pub mod Quarantine
