-- ===== src/Commands.antt =====
-- src/commands.c: the commands that act on a region from outside.
pub mod Lines
pub mod Actions
pub mod Pump
pub mod Money
pub mod Counters
