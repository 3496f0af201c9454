-- ===== src/Examples.antt =====
-- Concrete programs and states on which the theorems are run.
pub mod Programs
pub mod Loading
pub mod Running
pub mod Places
pub mod Sublists
pub mod Hearing
pub mod Looping
pub mod Texts
pub mod Calls
pub mod Files
