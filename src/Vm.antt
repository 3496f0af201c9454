-- ===== src/Vm.antt =====
-- src/vm.c: the tree-walking interpreter of LSL.
pub mod Outcome
pub mod State
pub mod Binary
pub mod Eval
pub mod Exec
pub mod Machine
pub mod Fuel
pub mod Logic
pub mod Scopes
pub mod World
