-- ===== src/Idempotency.antt =====
-- src/idempotency: the store of idempotency keys, the request fingerprint and the interceptor.
pub mod Store
pub mod Fingerprint
pub mod Interceptor
