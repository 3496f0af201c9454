-- ===== src/Vm/Logic/Rules.antt =====
-- A property of the interpreter's actions of src/vm.c, closed under its combinations of actions.
use sakura_slemu.Base.{ℕ, ◌≡◌, Bool, true, false, [], ◌∷◌, if◌then◌else◌}
use sakura_slemu.Double.{Double}
use sakura_slemu.Syntax.{Expr, Stmt, Stmts, Program}
use sakura_slemu.Value.{SValue}
use sakura_slemu.Vm.Outcome.{pure, faulted, exhausted, gets, modify, skip, ◌>>=◌, ◌>>◌}
use sakura_slemu.Vm.State.{
  Frame, Vm, Run, Cell, with_frame, frame_push, frame_pop, read_cell, write_cell, frame_define,
  frame_enter, frame_leave,
}
use sakura_slemu.Vm.Eval.{Rec, Host, top_ret}
use sakura_slemu.Vm.Scopes.Kept.{Scoped}

-- A frame of a call that has not run yet.
abbrev pub Fresh : {F : Type 0} → Frame F → Type 0
Fresh f = Scoped (f ∷ [])

pub record Logic (F W : Type 0) : Type 1 where
  pub holds : {A : Type 0} → Run F W A → Type 0
  pub on_pure : {A : Type 0} (a : A) → holds (pure a)
  pub on_fault : {A : Type 0} → holds (faulted {A = A})
  pub on_exhausted : {A : Type 0} → holds (exhausted {A = A})
  pub on_gets : {A : Type 0} (f : Vm F W → A) → holds (gets f)
  pub on_bind :
      {A B : Type 0} (m : Run F W A) (f : A → Run F W B)
      → holds m
      → ((a : A) → holds (f a))
      → holds (m >>= f)
  pub on_assoc :
      {A B C : Type 0} (m : Run F W A) (f : A → Run F W B) (k : B → Run F W C)
      → holds (m >>= λ a. f a >>= k)
      → holds ((m >>= f) >>= k)
  pub on_read : (c : Cell) → holds (read_cell c)
  pub on_write : (c : Cell) (v : SValue F) → holds (write_cell c v)
  -- a change that leaves the bindings and the depth
  pub on_flags :
      (g : Frame F → Frame F)
      → ((f : Frame F) → (g f).locs ≡ f.locs)
      → ((f : Frame F) → (g f).scope_depth ≡ f.scope_depth)
      → holds (with_frame g)
  pub on_define : (name : ℕ) (v : SValue F) → holds (with_frame (λ f. frame_define f name v))
  -- a change of the globals or of pending_state
  pub on_script :
      (f : Vm F W → Vm F W)
      → ((vm : Vm F W) → (f vm).frames ≡ vm.frames)
      → ((vm : Vm F W) → (f vm).world ≡ vm.world)
      → holds (modify f)
  pub on_scope :
      {A : Type 0} (m : Run F W A)
      → holds m
      → holds (with_frame frame_enter >> (m >> with_frame frame_leave))
  pub on_scope2 :
      {A B : Type 0} (m : Run F W A) (n : Run F W B)
      → holds m
      → holds n
      → holds (with_frame frame_enter >> (m >> (n >> with_frame frame_leave)))
  pub on_call :
      (D : Double F) (p : Program) (host : Host F W) (f : Frame F) (m : Run F W (Unit {0}))
      → Fresh f
      → holds m
      → holds (frame_push f >> (m >> (top_ret D p host >>= λ out. frame_pop >> pure out)))

pub record Holds {F W : Type 0} (L : Logic F W) {A : Type 0} (m : Run F W A) : Type 0 where
  pub at : L.holds m

module _ {F W A : Type 0} {L : Logic F W} where
  pub Holds-pure : (a : A) → Holds L (pure a)
  Holds-pure a = record { at = L.on_pure a }

  pub Holds-faulted : Holds L (faulted {A = A})
  Holds-faulted = record { at = L.on_fault }

  pub Holds-exhausted : Holds L (exhausted {A = A})
  Holds-exhausted = record { at = L.on_exhausted }

  pub Holds-gets : (f : Vm F W → A) → Holds L (gets f)
  Holds-gets f = record { at = L.on_gets f }

  pub Holds-if : (b : Bool) (m n : Run F W A) → Holds L m → Holds L n → Holds L (if b then m else n)
  Holds-if true m n h k = h
  Holds-if false m n h k = k

module _ {F W A B : Type 0} {L : Logic F W} where
  pub Holds-bind :
      (m : Run F W A) (f : A → Run F W B)
      → Holds L m
      → ((a : A) → Holds L (f a))
      → Holds L (m >>= f)
  Holds-bind m f h k = record { at = L.on_bind m f h.at (λ a. (k a).at) }

module _ {F W : Type 0} {L : Logic F W} where
  pub Holds-skip : Holds L skip
  Holds-skip = record { at = L.on_pure tt }

  pub Holds-read_cell : (c : Cell) → Holds L (read_cell c)
  Holds-read_cell c = record { at = L.on_read c }

  pub Holds-write_cell : (c : Cell) (v : SValue F) → Holds L (write_cell c v)
  Holds-write_cell c v = record { at = L.on_write c v }

module _ {F W : Type 0} {L : Logic F W} where
  pub Holds-flags :
      (g : Frame F → Frame F)
      → ((f : Frame F) → (g f).locs ≡ f.locs)
      → ((f : Frame F) → (g f).scope_depth ≡ f.scope_depth)
      → Holds L (with_frame g)
  Holds-flags g h k = record { at = L.on_flags g h k }

pub ruleset holds_rules = (
  Holds-pure, Holds-faulted, Holds-gets, Holds-skip, Holds-if, Holds-bind, Holds-read_cell,
  Holds-write_cell,
)

-- The interpreter's functions have the property.
pub record HoldsRec {F W : Type 0} (L : Logic F W) (r : Rec F W) : Type 0 where
  pub eval : (e : Expr) → Holds L (r.eval e)
  pub exec : (s : Stmt) → Holds L (r.exec s)
  pub resume : (ss : Stmts) (i : ℕ) → Holds L (r.resume ss i)
