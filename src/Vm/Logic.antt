-- ===== src/Vm/Logic.antt =====
-- src/vm.c: properties that every run of the interpreter has, because its actions have them and they
-- are closed under the ways in which it combines them.
pub mod Rules
pub mod Evaluation
pub mod Execution
