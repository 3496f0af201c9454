-- ===== src/Examples/Looping.antt =====
-- The theorem on the main loop at a small region.
use sakura_slemu.Base.{
  ℕ, ◌≡◌, refl, Bool, true, false, str_eq, to_i32, strtoll10, none, [], ◌∷◌, Str, codes, ℤ, pos,
  arith,
}
use sakura_slemu.Value.{integer, void}
use sakura_slemu.Vm.Outcome.{Outcome, done, fault, no_fuel}
use sakura_slemu.Vm.Eval.{Host}
use sakura_slemu.Vm.World.{HostMoves}
use sakura_slemu.Region.State.{Region}
use sakura_slemu.Region.Dispatch.{World, script_turn}
use sakura_slemu.Commands.Pump.{commands_pump}
use sakura_slemu.Region.Loop.{region_loop, region_round}
use sakura_slemu.Region.Progress.Steps.{counting}
use sakura_slemu.Region.Progress.Ends.{region_loop_ends}
use sakura_slemu.Examples.Running.{int_double}
use sakura_slemu.Examples.Places.{plaza, listener}

-- No built-ins.
abbrev bare : Host ℤ (World ℤ)
bare = record { builtin = λ name. none; constant = λ name. void }

bare_counts : HostMoves counting bare
bare_counts name = tt

-- The script has entered its state: its handler is to run.
abbrev entered_plaza : Region ℤ
entered_plaza = record plaza {
  scripts =
      record listener {
        globals = integer (pos 0) ∷ [];
        evq = record { name = codes "state_entry"; args = [] } ∷ [];
      }
      ∷ [];
}

abbrev state_of : Outcome (Region ℤ) Bool → Region ℤ
state_of (done b r) = r
state_of fault = plaza
state_of no_fuel = plaza

abbrev no_uuid : ℕ → Str
no_uuid n = []

abbrev settled : Region ℤ
settled = state_of (region_loop int_double bare 7 no_uuid (λ k. false) 11 entered_plaza)

region_loop_ends_example : true ≡ true
unfolding region_loop region_round script_turn str_eq commands_pump to_i32 strtoll10
region_loop_ends_example =
    region_loop_ends int_double bare 7 bare_counts no_uuid (λ k. false) 10 entered_plaza settled
      true (omega arith) (omega arith) refl
