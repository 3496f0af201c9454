-- ===== src/Examples/Loading.antt =====
-- The theorems on the loader at a small file.
use sakura_slemu.Base.{◌≡◌, [], ◌∷◌, arith}
use sakura_slemu.Loader.Rdr.{got, no_fuel}
use sakura_slemu.Loader.Writer.{ExprFits, StmtFits}
use sakura_slemu.Loader.WriteProgram.{put_program, ProgramFits}
use sakura_slemu.Loader.Load.{program_load}
use sakura_slemu.Loader.Correct.{program_load-put}
use sakura_slemu.Loader.Fuel.{program_load_ends}
use sakura_slemu.Examples.Programs.{counter}
use mathlib.Core.Logic.{◌≢◌}

counter_fits : ProgramFits 2 counter
unfolding ExprFits StmtFits
counter_fits = record {
  flags = omega arith;
  n_strings = omega arith;
  n_globals = omega arith;
  n_funcs = omega arith;
  n_states = omega arith;
  strings = ground arith;
  globals = ground arith;
  funcs = tt;
  states = ground arith;
}

program_load-put_example : program_load (put_program 2 counter) ≡ got counter []
program_load-put_example = program_load-put 2 counter (omega arith) (omega arith) counter_fits

program_load_ends_example : program_load (83 ∷ 76 ∷ 66 ∷ []) ≢ no_fuel
program_load_ends_example = program_load_ends (83 ∷ 76 ∷ 66 ∷ [])
