-- ===== src/Loader.antt =====
-- src/loader.c: the reader of .lslbc files.
pub mod Rdr
pub mod Nodes
pub mod Writer
pub mod WriteProgram
pub mod Load
pub mod RoundTrip
pub mod RoundTripStmts
pub mod Size
pub mod RoundTripProgram
pub mod Correct
pub mod Fuel
use sakura_slemu.Base.{ℕ}
