-- ===== src/Vm/Scopes.antt =====
-- src/vm.c: the discipline of frames and scopes that the interpreter keeps.
pub mod Kept
pub mod Actions
pub mod Frames
