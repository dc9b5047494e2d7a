-- ===== src/Chord.antt =====
-- The peer-to-peer lookup service of `DHT_Chord`.
pub mod Hash
pub mod State
pub mod Lookup
pub mod Ring
pub mod Network
pub mod Stabilize
pub mod Handler
pub mod Keys
pub mod Closer
pub mod Query
pub mod Protocol
pub mod Links
