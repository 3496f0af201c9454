-- ===== src/Region/Loop.antt =====
-- src/region.c: region_run. `gen_uuid` gives the random keys; `expired k` says whether the wall clock's
-- limit has passed in the round with `k` rounds of fuel left after it. The debugger is off.
use sakura_slemu.Base.{
  ℕ, zero, suc, ◌+◌, ◌&&◌, ◌||◌, Bool, true, false, Option, none, some, List, [], ◌∷◌, Str, codes,
  length, ltb, leb, if◌then◌else◌,
}
use sakura_slemu.Double.{Double}
use sakura_slemu.Value.{f_zero, f_one}
use sakura_slemu.Vm.Outcome.{Outcome, done, Action, pure, gets, modify, skip, ◌>>=◌, ◌>>◌}
use sakura_slemu.Vm.Eval.{Host}
use sakura_slemu.Region.State.{Script, Region}
use sakura_slemu.Region.Queue.{push_to}
use sakura_slemu.Region.Dispatch.{World, at_script, init_script, script_turn}
use sakura_slemu.Commands.Pump.{commands_pump}
use sakura_slemu.Volume.Economy.{volume_load_economy, volume_save_economy}

module _ {F : Type 0} (D : Double F) where
  -- The timer that is due first, among those due at `el`: its time and its script.
  unfoldable pub earliest_timer : F → ℕ → List (Script F) → F × Option ℕ → F × Option ℕ
  earliest_timer el i [] best = best
  earliest_timer el i (s ∷ ss) (earliest, fire) = earliest_timer el (suc i) ss (
      if D.lt (f_zero D) s.timer_interval && D.le s.timer_due el && D.lt s.timer_due earliest
      then (s.timer_due, some i)
      else (earliest, fire))

  abbrev pub fire_found : F × Option ℕ → Region F → Outcome (Region F) Bool
  fire_found (earliest, none) r = done false (record r { virtual_now = r.virtual_offset })
  fire_found (earliest, some i) r = done true (
      at_script i (λ s. record s { timer_due = D.add s.timer_due s.timer_interval })
        (push_to i (codes "timer") [] (record r { virtual_now = earliest })))

  unfoldable pub fire_timer : Action (Region F) Bool
  unfolding earliest_timer push_to
  fire_timer r =
      fire_found
        (earliest_timer r.virtual_offset 0 r.scripts (D.add r.virtual_offset (f_one D), none)) r

module _ {F : Type 0} (D : Double F) (host : Host F (World F)) (fuel : ℕ) where
  unfoldable pub init_scripts : ℕ → ℕ → Action (Region F) (Unit {0})
  init_scripts zero i = skip
  init_scripts (suc n) i = do init_script D host fuel i; init_scripts n (suc i)

  -- One event of each of the `n` scripts from place `i` on; whether there was one.
  unfoldable pub drain_queues : ℕ → ℕ → Action (Region F) Bool
  drain_queues zero i = pure false
  drain_queues (suc n) i = do
    moved ← script_turn D host fuel i
    rest ← drain_queues n (suc i)
    pure (moved || rest)

  unfoldable pub region_round : Action (Region F) Bool
  unfolding fire_timer drain_queues
  region_round = do
    fired ← fire_timer D
    n ← gets (λ r. length r.scripts)
    moved ← drain_queues n 0
    pure (fired || moved)

  module _ (gen_uuid : ℕ → Str) (expired : ℕ → Bool) where
    abbrev pub out_of_steps : Region F → Bool
    out_of_steps r = ltb 0 r.max_steps && leb r.max_steps r.n_steps

    abbrev pub stepped : Region F → Region F
    stepped r = record r { n_steps = r.n_steps + 1 }

    -- A round without progress takes a command, or ends the loop.
    abbrev pub pumped : Option (Region F) → Action (Region F) Bool → Action (Region F) Bool
    pumped none next = pure true
    pumped (some r) next = do modify (λ _. stepped r); next

    -- Whether the loop ended within that many rounds.
    unfoldable pub region_loop : ℕ → Action (Region F) Bool
    region_loop zero = pure false
    region_loop (suc rounds) = do
      r ← gets (λ r. r)
      let next = region_loop rounds
      if out_of_steps r || expired rounds then pure true else do
        progress ← region_round
        r' ← gets (λ r. r)
        if progress then next else pumped (commands_pump D gen_uuid r') next

    -- The commands that are left, one after the other.
    unfoldable pub drain_commands : ℕ → Region F → Region F
    drain_commands zero r = r
    drain_commands (suc n) r = elim (commands_pump D gen_uuid r) [
      | none ↦ r
      | some r' ↦ drain_commands n (stepped r')
    ]

    unfoldable pub region_run : ℕ → Action (Region F) Bool
    unfolding init_scripts region_loop drain_commands volume_load_economy volume_save_economy
    region_run rounds = do
      modify volume_load_economy
      n ← gets (λ r. length r.scripts)
      init_scripts n 0
      ended ← region_loop rounds
      modify (λ r. drain_commands (length r.commands) r)
      modify volume_save_economy
      pure ended
