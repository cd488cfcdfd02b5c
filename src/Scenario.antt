-- ===== src/Scenario.antt =====
-- pkg/storage/scenario.go: loading the scenario file and matching a request.
pub mod Types
pub mod Load
pub mod Match
