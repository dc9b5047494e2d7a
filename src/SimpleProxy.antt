-- ===== src/SimpleProxy.antt =====
-- The proxy without a cache, `Web Proxy_C/simplified version/proxy.c`.
pub mod Address
pub mod Session
pub mod Log
pub mod RoundTrip
pub mod Headers
pub mod Relay
