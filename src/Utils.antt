-- ===== src/Utils.antt =====
-- src/utils: the bounded semaphore and the per-user limiter.
pub mod Fs
pub mod Semaphore
pub mod UserLimiter
pub mod Ranges
pub mod SsrfProxy
pub mod Url
