-- ===== src/Builtins/Effects/Effect.antt =====
-- src/builtins.c: what a built-in does to the region, called from the script at a place.
use sakura_slemu.Base.{ℕ, List}
use sakura_slemu.Value.{SValue, void}
use sakura_slemu.Region.State.{Script, Region}
use sakura_slemu.Region.Dispatch.{at_script}

-- From the script's place, the script, the arguments and the region: the region and the result.
abbrev pub Effect : Type 0 → Type 0
Effect F = ℕ → Script F → List (SValue F) → Region F → Region F × SValue F

module _ {F : Type 0} where
  -- A result that leaves the region.
  abbrev pub reads : (Script F → Region F → List (SValue F) → SValue F) → Effect F
  reads f self s a r = (r, f s r a)

  -- A change of the script itself.
  abbrev pub own : (Region F → List (SValue F) → Script F → Script F) → Effect F
  own f self s a r = (at_script self (f r a) r, void)
