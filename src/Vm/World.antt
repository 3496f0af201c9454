-- ===== src/Vm/World.antt =====
-- src/vm.c: the interpreter changes the world only through the built-ins.
use sakura_slemu.Base.{ℕ, Option, none, some, List, [], ◌∷◌, sym, subst}
use sakura_slemu.Double.{Double}
use sakura_slemu.Syntax.{Expr, EventDecl, Program}
use sakura_slemu.Value.{SValue}
use sakura_slemu.Vm.Outcome.{Outcome, done, fault, no_fuel, after, ◌>>=◌}
use sakura_slemu.Vm.State.{
  LocalBinding, Frame, Vm, Run, Cell, local, global, with_frame, frame_push, frame_pop, read_cell,
  write_cell,
}
use sakura_slemu.Vm.Eval.{Host, ret_of, top_ret}
use sakura_slemu.Vm.Machine.{vm_eval, vm_exec, vm_dispatch}
use sakura_slemu.Vm.Logic.Rules.{Logic}
use sakura_slemu.Vm.Logic.Evaluation.{HostHolds}
use sakura_slemu.Vm.Logic.Execution.{machine-Holds}

-- A relation between worlds that steps of the world may be chained in.
pub record Moves (W : Type 0) : Type 1 where
  pub rel : W → W → Type 0
  pub rel_refl : (w : W) → rel w w
  pub rel_trans : (a b c : W) → rel a b → rel b c → rel a c

module _ {F W : Type 0} (M : Moves W) where
  abbrev pub Moved : {A : Type 0} → W → Outcome (Vm F W) A → Type 0
  Moved w (done a vm) = M.rel w vm.world
  Moved w fault = Unit
  Moved w no_fuel = Unit

  pub record MovesBy {A : Type 0} (m : Run F W A) : Type 0 where
    pub at : (vm : Vm F W) → Moved vm.world (m vm)

module _ {F W : Type 0} (M : Moves W) where
  Moved-trans :
      {A : Type 0} (a b : W) (o : Outcome (Vm F W) A) → M.rel a b → Moved M b o → Moved M a o
  Moved-trans a b (done x vm) h k = M.rel_trans a b vm.world h k
  Moved-trans a b fault h k = tt
  Moved-trans a b no_fuel h k = tt

  after-Moved :
      {A B : Type 0} (w : W) (o : Outcome (Vm F W) A) (f : A → Run F W B)
      → Moved M w o
      → ((a : A) → MovesBy M (f a))
      → Moved M w (after o f)
  after-Moved w (done a vm) f h k = Moved-trans w vm.world (f a vm) h ((k a).at vm)
  after-Moved w fault f h k = tt
  after-Moved w no_fuel f h k = tt

  pub bind-MovesBy :
      {A B : Type 0} (m : Run F W A) (f : A → Run F W B)
      → MovesBy M m
      → ((a : A) → MovesBy M (f a))
      → MovesBy M (m >>= f)
  bind-MovesBy m f h k = record { at = λ vm. after-Moved vm.world (m vm) f (h.at vm) k }

  local_read-Moved :
      (vm : Vm F W) (o : Option (LocalBinding F))
      → Moved M {A = SValue F} vm.world (elim o [ none ↦ fault | some b ↦ done b.val vm ])
  local_read-Moved vm none = tt
  local_read-Moved vm (some b) = M.rel_refl vm.world

  global_read-Moved :
      (vm : Vm F W) (o : Option (SValue F))
      → Moved M {A = SValue F} vm.world (elim o [ none ↦ fault | some v ↦ done v vm ])
  global_read-Moved vm none = tt
  global_read-Moved vm (some v) = M.rel_refl vm.world

  pub read-MovesBy : (c : Cell) → MovesBy {F = F} M (read_cell c)
  unfolding read_cell
  read-MovesBy (local i) = record { at = λ vm. local_read-Moved vm _ }
  read-MovesBy (global i) = record { at = λ vm. global_read-Moved vm _ }

  pub write-MovesBy : (c : Cell) (v : SValue F) → MovesBy M (write_cell c v)
  unfolding write_cell
  write-MovesBy (local i) v = record { at = λ vm. M.rel_refl vm.world }
  write-MovesBy (global i) v = record { at = λ vm. M.rel_refl vm.world }

  pub frame-MovesBy : (g : Frame F → Frame F) → MovesBy M (with_frame g)
  unfolding with_frame
  frame-MovesBy g = record { at = λ vm. M.rel_refl vm.world }

  pub push-MovesBy : (f : Frame F) → MovesBy M (frame_push f)
  unfolding frame_push
  push-MovesBy f = record { at = λ vm. M.rel_refl vm.world }

  pub pop-MovesBy : MovesBy {F = F} M frame_pop
  unfolding frame_pop
  pop-MovesBy = record { at = λ vm. M.rel_refl vm.world }

  ret-Moved :
      (D : Double F) (p : Program) (host : Host F W) (fs : List (Frame F)) (vm : Vm F W)
      → Moved M vm.world (ret_of D p host fs vm)
  ret-Moved D p host [] vm = tt
  ret-Moved D p host (f ∷ fs) vm = M.rel_refl vm.world

  pub ret-MovesBy : (D : Double F) (p : Program) (host : Host F W) → MovesBy M (top_ret D p host)
  unfolding top_ret
  ret-MovesBy D p host = record { at = λ vm. ret-Moved D p host vm.frames vm }

  regroup-Moved :
      {A B C : Type 0} (w : W) (o : Outcome (Vm F W) A) (f : A → Run F W B) (k : B → Run F W C)
      → Moved M w (after o (λ a. f a >>= k))
      → Moved M w (after (after o f) k)
  regroup-Moved w (done a vm) f k h = h
  regroup-Moved w fault f k h = tt
  regroup-Moved w no_fuel f k h = tt

  pub assoc-MovesBy :
      {A B C : Type 0} (m : Run F W A) (f : A → Run F W B) (k : B → Run F W C)
      → MovesBy M (m >>= λ a. f a >>= k)
      → MovesBy M ((m >>= f) >>= k)
  assoc-MovesBy m f k h = record { at = λ vm. regroup-Moved vm.world (m vm) f k (h.at vm) }

  abbrev pub moves_logic : Logic F W
  moves_logic = record {
    holds = MovesBy M;
    on_pure = λ a. record { at = λ vm. M.rel_refl vm.world };
    on_fault = record { at = λ vm. tt };
    on_exhausted = record { at = λ vm. tt };
    on_gets = λ f. record { at = λ vm. M.rel_refl vm.world };
    on_bind = bind-MovesBy;
    on_assoc = assoc-MovesBy;
    on_read = read-MovesBy;
    on_write = write-MovesBy;
    on_flags = λ g _ _. frame-MovesBy g;
    on_define = λ name v. frame-MovesBy _;
    on_script =
        λ f _ e. record { at = λ vm. subst (M.rel vm.world) (sym (e vm)) (M.rel_refl vm.world) };
    on_scope =
        λ m h. bind-MovesBy _ _ (frame-MovesBy _) λ _. bind-MovesBy _ _ h λ _. frame-MovesBy _;
    on_scope2 = λ m n h k.
        bind-MovesBy _ _ (frame-MovesBy _)
          λ _. bind-MovesBy _ _ h λ _. bind-MovesBy _ _ k λ _. frame-MovesBy _;
    on_call = λ D p host f m s h. bind-MovesBy _ _ (push-MovesBy f) λ _. bind-MovesBy _ _ h λ _.
        bind-MovesBy _ _ (ret-MovesBy D p host)
          λ out. bind-MovesBy _ _ pop-MovesBy λ _. record { at = λ vm. M.rel_refl vm.world };
  }

-- Every built-in moves the world by the relation, if the evaluator that it is given does.
abbrev pub HostMoves : {F W : Type 0} → Moves W → Host F W → Type 0
HostMoves M host = HostHolds (moves_logic M) host

module _ {F W : Type 0} (D : Double F) (p : Program) (host : Host F W) (M : Moves W)
    (hm : HostMoves M host) where
  pub dispatch-MovesBy :
      (n : ℕ) (ev : EventDecl) (args : List (SValue F)) → MovesBy M (vm_dispatch D p host n ev args)
  unfolding vm_dispatch vm_exec
  dispatch-MovesBy n ev args =
      bind-MovesBy M _ _ (push-MovesBy M _)
        λ _. bind-MovesBy M _ _ ((machine-Holds D p host hm n).exec ev.body).at λ _. pop-MovesBy M

  pub eval-MovesBy : (n : ℕ) (e : Expr) → MovesBy M (vm_eval D p host n e)
  unfolding vm_eval
  eval-MovesBy n e = ((machine-Holds D p host hm n).eval e).at
