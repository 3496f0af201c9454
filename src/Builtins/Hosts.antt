-- ===== src/Builtins/Hosts.antt =====
-- src/builtins.c: what the interpreter and the main loop may rely on.
pub mod Counts
pub mod Entries
pub mod RegionHost
