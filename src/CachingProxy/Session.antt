-- ===== src/CachingProxy/Session.antt =====
-- `minion` of `Web Proxy_C/Proxy with Cache/main.cpp`: one connection of a client.
pub mod World
pub mod Reading
pub mod Supply
pub mod Requests
pub mod Fetch
pub mod Turn
pub mod Sending
pub mod Headers
pub mod Bodies
pub mod Messages
pub mod Responses
pub mod Serving
pub mod Hits
pub mod Misses
pub mod Fuel
pub mod Rounds
pub mod Termination
pub mod Ends
pub mod Relaying
pub mod Caching
