-- ===== src/RateLimit.antt =====
-- src/ratelimit/limiter.rs.
pub mod Tpm
pub mod Store
