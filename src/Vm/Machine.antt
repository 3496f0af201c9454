-- ===== src/Vm/Machine.antt =====
-- src/vm.c: the interpreter as a whole. Evaluation need not end (a script may call itself for ever),
-- so it takes fuel, which bounds the nesting of calls, statements and backward jumps.
use sakura_slemu.Base.{ℕ, zero, suc, List, [], ◌∷◌}
use sakura_slemu.Double.{Double}
use sakura_slemu.Syntax.{Expr, Stmt, Param, EventDecl, Program}
use sakura_slemu.Value.{SValue}
use sakura_slemu.Vm.Outcome.{exhausted, ◌>>◌}
use sakura_slemu.Vm.State.{Frame, Run, frame_init, frame_define, frame_push, frame_pop}
use sakura_slemu.Vm.Binary.{coerce}
use sakura_slemu.Vm.Eval.{Rec, Host, eval_with}
use sakura_slemu.Vm.Exec.{exec_with, run_block, drop_stmts}

module _ {F W : Type 0} (D : Double F) (p : Program) (host : Host F W) where
  unfoldable pub machine : ℕ → Rec F W
  unfolding eval_with exec_with run_block
  machine zero = record { eval = λ e. exhausted; exec = λ s. exhausted; resume = λ ss i. exhausted }
  machine (suc fuel) =
      let r = machine fuel in
      record {
        eval = eval_with D p host r;
        exec = exec_with D p r;
        resume = λ ss i. run_block D p r ss (drop_stmts i ss);
      }

  unfoldable pub vm_eval : ℕ → Expr → Run F W (SValue F)
  unfolding machine
  vm_eval fuel e = (machine fuel).eval e

  unfoldable pub vm_exec : ℕ → Stmt → Run F W (Unit {0})
  unfolding machine
  vm_exec fuel s = (machine fuel).exec s

  -- The parameters of an event, bound to its arguments as far as both go.
  unfoldable pub bind_args : List Param → List (SValue F) → Frame F → Frame F
  unfolding frame_define coerce
  bind_args [] vs f = f
  bind_args (q ∷ qs) [] f = f
  bind_args (q ∷ qs) (v ∷ vs) f = bind_args qs vs (frame_define f q.name_idx (coerce D v q.type))

  unfoldable pub vm_dispatch : ℕ → EventDecl → List (SValue F) → Run F W (Unit {0})
  unfolding bind_args frame_push vm_exec frame_pop
  vm_dispatch fuel ev args = do
    frame_push (bind_args ev.params args frame_init)
    vm_exec fuel ev.body
    frame_pop
