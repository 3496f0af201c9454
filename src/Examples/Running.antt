-- ===== src/Examples/Running.antt =====
-- The theorems on the interpreter at a small program, with the integers for the doubles.
use sakura_slemu.Base.{
  ℕ, ◌≡◌, refl, none, some, [], ◌∷◌, ℤ, pos, ◌+ℤ◌, ◌-ℤ◌, ◌*ℤ◌, quotient, eq_ℤ, ltb_ℤ, leb_ℤ,
  print_ℤ, strtoll10,
}
use sakura_slemu.Double.{Double}
use sakura_slemu.Value.{integer, void}
use sakura_slemu.Vm.Outcome.{pure}
use sakura_slemu.Vm.State.{Vm, frame_init}
use sakura_slemu.Vm.Eval.{Host}
use sakura_slemu.Vm.Machine.{vm_exec, vm_dispatch}
use sakura_slemu.Vm.Scopes.Kept.{Kept, SameKeys}
use sakura_slemu.Vm.Logic.Rules.{Holds-pure}
use sakura_slemu.Vm.Scopes.Frames.{HostKeeps, vm_exec-Kept, vm_exec-block_scope, vm_dispatch-frames}
use sakura_slemu.Examples.Programs.{counter, entry, entry_body, scoped_block}

abbrev pub int_double : Double ℤ
int_double = record {
  of_int = λ i. i;
  to_int = λ f. f;
  add = λ a b. a +ℤ b;
  sub = λ a b. a -ℤ b;
  mul = λ a b. a *ℤ b;
  div = quotient;
  neg = λ a. pos 0 -ℤ a;
  eq = eq_ℤ;
  lt = ltb_ℤ;
  le = leb_ℤ;
  print5 = print_ℤ;
  print6 = print_ℤ;
  strtod = strtoll10;
  of_bits = pos;
  scan = λ n s. [];
}

-- Every built-in gives 7, and there are no constants.
abbrev sevens : Host ℤ ℕ
sevens = record {
  builtin = λ name. some (λ ev args. pure (integer (pos 7)));
  constant = λ name. void;
}

sevens_keeps : HostKeeps sevens
sevens_keeps name = λ ev h args. Holds-pure _

abbrev started : Vm ℤ ℕ
started = record { frames = []; globals = integer (pos 3) ∷ []; pending_state = none; world = 0 }

abbrev finished : Vm ℤ ℕ
finished = record { frames = []; globals = integer (pos 3) ∷ []; pending_state = none; world = 0 }

abbrev in_frame : Vm ℤ ℕ
in_frame = record started { frames = frame_init ∷ [] }

abbrev assigned : Vm ℤ ℕ
assigned = record finished { frames = frame_init ∷ [] }

vm_dispatch-frames_example : finished.frames ≡ started.frames
unfolding vm_dispatch
vm_dispatch-frames_example =
    vm_dispatch-frames int_double counter sevens sevens_keeps 7 entry [] started finished refl

vm_exec-Kept_example : Kept in_frame.frames assigned.frames
unfolding vm_exec
vm_exec-Kept_example =
    vm_exec-Kept int_double counter sevens sevens_keeps 7 entry_body in_frame assigned tt refl

vm_exec-block_scope_example : SameKeys in_frame.frames in_frame.frames
unfolding vm_exec
vm_exec-block_scope_example =
    vm_exec-block_scope int_double counter sevens sevens_keeps 7 6 scoped_block in_frame in_frame tt
      refl
