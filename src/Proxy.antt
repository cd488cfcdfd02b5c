-- ===== src/Proxy.antt =====
-- pkg/proxy/handler.go: the recording proxy.
pub mod Relay
pub mod Chunks
pub mod Scan
pub mod Handle
pub mod Start
pub mod Started
pub mod Forward
pub mod Replay
