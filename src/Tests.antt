-- ===== src/Tests.antt =====
-- Concrete inputs: a world in which the parameters are functions, and each theorem with conditions
-- at one input that meets them.
mod World
mod Pooling
mod Settling
mod Starting
mod Capturing
mod Stores
mod Replaying
mod Proxying
mod Chunking
mod Streaming
mod Recording
mod Logging
mod Serving
mod Recapture
mod Loading
mod Answers
mod Lookups
