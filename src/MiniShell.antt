-- ===== src/MiniShell.antt =====
-- The command line of `MiniShell/myShell.cpp`, up to the processes that it starts.
pub mod Words
pub mod Dirs
pub mod Builtins
pub mod Parsing
pub mod Ends
pub mod Stack
pub mod Child
pub mod Rounds
pub mod Pipelines
