-- ===== src/Limits.antt =====
-- Rate limits, expiry times and quotas (code/limits.go).
pub mod Bucket
pub mod Expire
pub mod Rates
