-- ===== src/Storage.antt =====
-- pkg/storage/storage.go and pkg/storage/scenario.go.
pub mod Types
pub mod Keys
pub mod Index
pub mod Find
pub mod Stats
pub mod Load
