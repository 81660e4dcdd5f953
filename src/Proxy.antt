-- ===== src/Proxy.antt =====
-- cmd/proxy: the reverse proxy's routing core, one child module for each part.
pub mod Backend
pub mod Group
pub mod Pick
pub mod Body
pub mod Dispatch
pub mod Cache
pub mod Cacheable
pub mod Recorder
pub mod CacheFlow
pub mod Router
pub mod RateLimit
pub mod Hybrid
mod Examples
mod CacheExamples
mod RouterExamples
mod RateLimitExamples
