-- ===== src/Tests.antt =====
-- The theorems at concrete inputs, and runs of the definitions.
mod Ecc
mod CachingProxy
mod Sessions
mod Chord
mod SimpleProxy
mod MiniShell
