-- ===== src/Region/Progress.antt =====
-- src/region.c: why the main loop ends. Every round that goes on counts a step.
pub mod Steps
pub mod Turns
pub mod Ends
