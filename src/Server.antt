-- ===== src/Server.antt =====
-- server and demo: the HTTP layer's own state.
pub mod RateLimiter
pub mod IpRateLimiter
pub mod UserState
pub mod Session
pub mod Stream
