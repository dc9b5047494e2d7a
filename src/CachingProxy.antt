-- ===== src/CachingProxy.antt =====
-- The proxy of `Web Proxy_C/Proxy with Cache`.
pub mod Header
pub mod Instance
pub mod Cache
pub mod Comm
pub mod Request
pub mod Session
