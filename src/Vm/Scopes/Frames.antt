-- ===== src/Vm/Scopes/Frames.antt =====
-- src/vm.c: running a statement keeps the frames, leaving a block leaves the bindings that were there
-- before it, and dispatching an event leaves the frames as they were.
use sakura_slemu.Base.{ℕ, zero, suc, ◌≡◌, Bool, true, false, List, [], ◌∷◌, if◌then◌else◌, subst}
use sakura_slemu.Double.{Double}
use sakura_slemu.Syntax.{Stmt, stmt, Stmts, Param, EventDecl, Program, block}
use sakura_slemu.Value.{SValue}
use sakura_slemu.Vm.Outcome.{done, skip}
use sakura_slemu.Vm.State.{Frame, Vm, Run, frame_init}
use sakura_slemu.Vm.Binary.{coerce}
use sakura_slemu.Vm.Eval.{Host}
use sakura_slemu.Vm.Exec.{exec_with, exec_form, unwinding}
use sakura_slemu.Vm.Machine.{machine, vm_exec, vm_dispatch, bind_args}
use sakura_slemu.Vm.Logic.Rules.{Fresh}
use sakura_slemu.Vm.Logic.Evaluation.{HostHolds, Fresh-define}
use sakura_slemu.Vm.Logic.Execution.{machine-Holds, block-Holds}
use sakura_slemu.Vm.Scopes.Kept.{Scoped, Kept, SameKeys, SameKeys-refl}
use sakura_slemu.Vm.Scopes.Actions.{Post, Restores, call_Restores, Same, scope_Same, keeps_logic}

-- Every built-in keeps the frames, if the evaluator that it is given does.
abbrev pub HostKeeps : {F W : Type 0} → Host F W → Type 0
HostKeeps host = HostHolds keeps_logic host

module _ {F W : Type 0} (D : Double F) (p : Program) (host : Host F W) (hk : HostKeeps host) where
  -- A statement that ends leaves the frames of the callers and the depth of the scope as they were,
  -- and keeps all bindings of the running frame: it may only change their values, and add bindings of
  -- the innermost scope in front. Condition: no binding is deeper than the scope, and the built-ins
  -- keep the frames if the evaluator that they are given does.
  pub vm_exec-Kept :
      (n : ℕ) (s : Stmt) (vm vm' : Vm F W)
      → Scoped vm.frames
      → vm_exec D p host n s vm ≡ done tt vm'
      → Kept vm.frames vm'.frames
  unfolding vm_exec
  vm_exec-Kept n s vm vm' sc e =
      subst (Post vm.frames) e ((((machine-Holds D p host hk n).exec s).at).at vm sc)

  Same-unless :
      (b : Bool) (m : Run F W (Unit {0})) (vm : Vm F W)
      → Same vm.frames (m vm)
      → Same vm.frames ((if b then skip else m) vm)
  Same-unless true m vm h = SameKeys-refl vm.frames
  Same-unless false m vm h = h

  -- A block that ends leaves just the bindings (names and depths) that were there before it. The
  -- conditions: no binding is deeper than the scope, and the built-ins keep the frames if the
  -- evaluator that they are given does.
  pub vm_exec-block_scope :
      (n line : ℕ) (ss : Stmts) (vm vm' : Vm F W)
      → Scoped vm.frames
      → vm_exec D p host n (stmt line (block ss)) vm ≡ done tt vm'
      → SameKeys vm.frames vm'.frames
  unfolding vm_exec machine exec_with exec_form
  vm_exec-block_scope zero line ss vm vm' sc e = absurd cc
  vm_exec-block_scope (suc n) line ss vm vm' sc e = subst (Same vm.frames) e (
      Same-unless (unwinding vm) (exec_form D p (machine D p host n) (block ss)) vm
        (scope_Same _ vm (block-Holds D p (machine-Holds D p host hk n) ss ss).at sc))

  Fresh-bind_args :
      (qs : List Param) (vs : List (SValue F)) (f : Frame F)
      → Fresh f
      → Fresh (bind_args D p host qs vs f)
  unfolding bind_args
  Fresh-bind_args [] vs f h = h
  Fresh-bind_args (q ∷ qs) [] f h = h
  Fresh-bind_args (q ∷ qs) (v ∷ vs) f h =
      Fresh-bind_args qs vs _ (Fresh-define f q.name_idx (coerce D v q.type) h)

  -- Handling an event leaves the stack of frames as it was, whatever the handler calls, returns from
  -- or jumps to, if the built-ins keep the frames.
  pub vm_dispatch-frames :
      (n : ℕ) (ev : EventDecl) (args : List (SValue F)) (vm vm' : Vm F W)
      → vm_dispatch D p host n ev args vm ≡ done tt vm'
      → vm'.frames ≡ vm.frames
  unfolding vm_dispatch vm_exec
  vm_dispatch-frames n ev args vm vm' e = subst (Restores vm.frames) e (
      call_Restores _ _ vm (Fresh-bind_args ev.params args frame_init tt)
        ((machine-Holds D p host hk n).exec ev.body).at)
