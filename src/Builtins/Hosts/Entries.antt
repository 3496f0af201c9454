-- ===== src/Builtins/Hosts/Entries.antt =====
-- src/builtins.c: one entry of the table keeps the frames, and the counters and queues of the region.
use sakura_slemu.Base.{
  refl, ◌≡◌, Bool, true, false, ◌&&◌, Option, none, some, List, [], ◌∷◌, map, Str, All, find,
  get_elem?, if◌then◌else◌,
}
use mathlib.Core.Option
use sakura_slemu.Syntax.{Expr}
use sakura_slemu.Value.{SValue}
use sakura_slemu.Vm.Outcome.{Outcome, fault}
use sakura_slemu.Vm.State.{Vm, Run}
use sakura_slemu.Vm.Fuel.{Below, Below-refl}
use sakura_slemu.Vm.Scopes.Kept.{Kept-refl}
use sakura_slemu.Vm.Scopes.Actions.{Post}
use sakura_slemu.Vm.World.{Moved}
use sakura_slemu.Region.State.{Script}
use sakura_slemu.Region.Dispatch.{World}
use sakura_slemu.Region.Progress.Steps.{counting}
use sakura_slemu.Builtins.Table.{
  Builtin, value, partial, effect, run_builtin, run_effect, or_fault, in_region,
}
use sakura_slemu.Builtins.Effects.Effect.{Effect}
use sakura_slemu.Builtins.Hosts.Counts.{Counts}

-- For one entry, and the ones behind it.
infixr 35 ◌⊗◌
pub ◌⊗◌ : {X Y : Type 0} → X → Y → X × Y
x ⊗ y = (x, y)

module _ {F : Type 0} where
  fault-Post : (o : Option (SValue F)) (vm : Vm F (World F)) → Post vm.frames (or_fault o vm)
  fault-Post none vm = tt
  fault-Post (some v) vm = Kept-refl vm.frames

  effect-Post :
      (f : Effect F) (args : List (SValue F)) (vm : Vm F (World F))
      → Post vm.frames (run_effect f args vm)
  effect-Post f args vm = at_place (get_elem? vm.world.region.scripts vm.world.self)
    where
      at_place :
          (o : Option (Script F))
          → Post vm.frames (elim o as (λ _. Outcome (Vm F (World F)) (SValue F)) [
            | none ↦ fault
            | some s ↦ in_region (f vm.world.self s args vm.world.region) vm
          ])
      at_place none = tt
      at_place (some s) = Kept-refl vm.frames

  pub run-Post :
      (b : Builtin F) (ev : Expr → Run F (World F) (SValue F)) (args : List (SValue F))
      (vm : Vm F (World F))
      → Post vm.frames (run_builtin b ev args vm)
  unfolding run_builtin
  run-Post (value f) ev args vm = Kept-refl vm.frames
  run-Post (partial f) ev args vm = fault-Post (f args) vm
  run-Post (effect f) ev args vm = effect-Post f args vm

  -- An entry never runs the evaluator.
  pub run-Below :
      (b : Builtin F) (ev ev' : Expr → Run F (World F) (SValue F)) (args : List (SValue F))
      → Below (run_builtin b ev args) (run_builtin b ev' args)
  unfolding run_builtin
  run-Below (value f) ev ev' args = Below-refl _
  run-Below (partial f) ev ev' args = Below-refl _
  run-Below (effect f) ev ev' args = Below-refl _

  -- What the main loop asks of an entry of the table.
  abbrev pub CountsOf : Builtin F → Type 0
  CountsOf (value f) = Unit
  CountsOf (partial f) = Unit
  CountsOf (effect f) = Counts f

  fault-Moved :
      (o : Option (SValue F)) (vm : Vm F (World F)) → Moved counting vm.world (or_fault o vm)
  fault-Moved none vm = tt
  fault-Moved (some v) vm = counting.rel_refl vm.world

  effect-Moved :
      (f : Effect F) (args : List (SValue F)) (vm : Vm F (World F))
      → Counts f
      → Moved counting vm.world (run_effect f args vm)
  effect-Moved f args vm h = at_place (get_elem? vm.world.region.scripts vm.world.self)
    where
      at_place :
          (o : Option (Script F))
          → Moved counting vm.world (elim o as (λ _. Outcome (Vm F (World F)) (SValue F)) [
            | none ↦ fault
            | some s ↦ in_region (f vm.world.self s args vm.world.region) vm
          ])
      at_place none = tt
      at_place (some s) = (refl, h vm.world.self s args vm.world.region)

  pub run-Moved :
      (b : Builtin F) (ev : Expr → Run F (World F) (SValue F)) (args : List (SValue F))
      (vm : Vm F (World F))
      → CountsOf b
      → Moved counting vm.world (run_builtin b ev args vm)
  unfolding run_builtin
  run-Moved (value f) ev args vm h = counting.rel_refl vm.world
  run-Moved (partial f) ev args vm h = fault-Moved (f args) vm
  run-Moved (effect f) ev args vm h = effect-Moved f args vm h

  -- What is found has what all entries have.
  abbrev pub FoundCounts : Option (Builtin F) → Type 0
  FoundCounts none = Unit
  FoundCounts (some b) = CountsOf b

  test-Counts :
      (b : Bool) (e : Str × Builtin F) (o : Option (Str × Builtin F))
      → CountsOf e.1
      → FoundCounts (Option.map (λ e. e.1) o)
      → FoundCounts (Option.map (λ e. e.1) (if b then some e else o))
  test-Counts true e o h k = h
  test-Counts false e o h k = k

  pub find-Counts :
      (test : Str × Builtin F → Bool) (es : List (Str × Builtin F))
      → All (λ (e : Str × Builtin F). CountsOf e.1) es
      → FoundCounts (Option.map (λ e. e.1) (find test es))
  find-Counts test [] h = tt
  find-Counts test (e ∷ es) (h, hs) =
      test-Counts (test e) e (find test es) h (find-Counts test es hs)

  pub values-Counts :
      (es : List (Str × SValue F))
      → All (λ (e : Str × Builtin F). CountsOf e.1) (map (λ e. (e.0, value (λ a. e.1))) es)
  values-Counts [] = tt
  values-Counts (e ∷ es) = (tt, values-Counts es)

  abbrev is_plain : Builtin F → Bool
  is_plain (value f) = true
  is_plain (partial f) = true
  is_plain (effect f) = false

  abbrev pub all_plain : List (Str × Builtin F) → Bool
  all_plain [] = true
  all_plain (e ∷ es) = is_plain e.1 && all_plain es

  plain-CountsOf : (b : Builtin F) (c : Bool) → is_plain b && c ≡ true → CountsOf b × (c ≡ true)
  plain-CountsOf (value f) c h = (tt, h)
  plain-CountsOf (partial f) c h = (tt, h)
  plain-CountsOf (effect f) c h = absurd cc

  -- Entries that are functions of the arguments ask for no more.
  pub all_plain-Counts :
      (es : List (Str × Builtin F))
      → all_plain es ≡ true
      → All (λ (e : Str × Builtin F). CountsOf e.1) es
  all_plain-Counts [] h = tt
  all_plain-Counts (e ∷ es) h =
      let (c, hs) = plain-CountsOf e.1 (all_plain es) h in (c, all_plain-Counts es hs)
