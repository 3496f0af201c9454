-- ===== src/Vm/Eval.antt =====
-- src/vm.c: vm_eval, resolve_lvalue, eval_call and run_user_func. Each function takes `r`, the
-- interpreter that it calls for the parts (`Vm.Machine` ties the knot), the program, the doubles
-- and the built-ins. A case of the source that reads or writes through a NULL pointer, or reads the
-- bytes of a pointer as a double, is `fault`.
use sakura_slemu.Base.{
  ℕ, suc, true, false, not, ◌||◌, Option, none, some, List, [], ◌∷◌, Str, ℤ, pos, negsuc, add64,
  sub64, not64, ◌==◌, if◌then◌else◌,
}
use sakura_slemu.Double.{Double}
use sakura_slemu.Syntax.{
  Expr, expr, Node, int_lit, float_lit, string_lit, ident, vector_lit, rot_lit, list_lit, call,
  member, cast, unary, postfix, binary, assign, Exprs, Stmt, Stmts, Param, GlobalVar, FuncDecl,
  Program, prog_str,
}
use sakura_slemu.Value.{
  SValue, void, integer, float, string, key, vector, rotation, list, of_items, of_bool, type_of,
  sv_truthy, f_zero, f_one, sv_float,
}
use sakura_slemu.Vm.Outcome.{pure, faulted, gets, ◌>>=◌, ◌>>◌}
use sakura_slemu.Vm.State.{
  Frame, Run, Cell, local, global, frame_init, frame_define, frame_find, frame_push, frame_pop,
  read_cell, write_cell,
}
use sakura_slemu.Vm.Binary.{coerce, eval_binary, do_cast}

-- The interpreter: vm_eval, vm_exec, and a block from the statement with a given index on.
pub record Rec (F W : Type 0) : Type 0 where
  pub eval : Expr → Run F W (SValue F)
  pub exec : Stmt → Run F W (Unit {0})
  pub resume : Stmts → ℕ → Run F W (Unit {0})

-- The built-ins (builtins_lookup; each may evaluate expressions) and constants (builtins_const).
pub record Host (F W : Type 0) : Type 0 where
  pub builtin : Str → Option ((Expr → Run F W (SValue F)) → List (SValue F) → Run F W (SValue F))
  pub constant : Str → SValue F

unfoldable pub find_global : List GlobalVar → ℕ → Option ℕ
find_global [] name = none
find_global (g ∷ gs) name =
    let rest = find_global gs name in
    if g.name_idx == name then some 0 else elim rest [ none ↦ none | some i ↦ some (suc i) ]

unfoldable pub find_func : List FuncDecl → ℕ → Option FuncDecl
find_func [] name = none
find_func (f ∷ fs) name = if f.name_idx == name then some f else find_func fs name

-- Lval: nothing, a storage cell, or a component of the vector or rotation in a cell.
pub data Lval : Type 0 where
  nowhere : Lval
  cell : Cell → Lval
  axis : Cell → ℕ → Lval

abbrev pub axis_of : Lval → ℕ → Lval
axis_of (cell c) m = axis c m
axis_of _ m = nowhere

abbrev pub step_int : ℕ → ℤ → ℤ
step_int op i = if op == 62 then add64 i (pos 1) else add64 i (negsuc 0)

module _ {F : Type 0} where
  -- The component that `++`, `--` and the compound assignments reach: z, but for x and y.
  abbrev pub step_axis : F → F → F → ℕ → F
  step_axis x y z m = if m == b'x' then x else if m == b'y' then y else z

  abbrev pub set_step_axis : F → F → F → ℕ → F → SValue F
  set_step_axis x y z m v =
      if m == b'x' then vector v y z else if m == b'y' then vector x v z else vector x y v

  -- `=` writes the component named, and no other.
  abbrev pub set_axis : SValue F → ℕ → F → SValue F
  set_axis (vector x y z) m v =
      if m == b'x'
      then vector v y z
      else if m == b'y'
      then vector x v z
      else if m == b'z'
      then vector x y v
      else vector x y z
  set_axis (rotation x y z s) m v =
      if m == b'x'
      then rotation v y z s
      else if m == b'y'
      then rotation x v z s
      else if m == b'z'
      then rotation x y v s
      else if m == b's'
      then rotation x y z v
      else rotation x y z s
  set_axis w m v = w

  abbrev pub complemented : SValue F → SValue F
  complemented (integer i) = integer (not64 i)
  complemented _ = integer (not64 (pos 0))

module _ {F : Type 0} (D : Double F) where
  abbrev pub axis_value : SValue F → ℕ → F
  axis_value (vector x y z) m =
      if m == b'x' then x else if m == b'y' then y else if m == b'z' then z else f_zero D
  axis_value (rotation x y z s) m =
      if m == b'x'
      then x
      else if m == b'y'
      then y
      else if m == b'z'
      then z
      else if m == b's'
      then s
      else f_zero D
  axis_value _ m = f_zero D

  abbrev pub step_float : ℕ → F → F
  step_float op f = D.add f (if op == 62 then f_one D else D.of_int (negsuc 0))

  abbrev pub stepped : ℕ → SValue F → SValue F
  stepped op (integer i) = integer (step_int op i)
  stepped op (float f) = float (step_float op f)
  stepped op v = v

  abbrev pub negated : SValue F → SValue F
  negated (integer i) = integer (sub64 (pos 0) i)
  negated (float f) = float (D.neg f)
  negated (vector x y z) = vector (D.neg x) (D.neg y) (D.neg z)
  negated (rotation x y z s) = rotation (D.neg x) (D.neg y) (D.neg z) (D.neg s)
  negated v = v

  unfoldable pub unary_value : ℕ → SValue F → SValue F
  unfolding sv_truthy
  unary_value op v =
      if op == 43
      then negated v
      else if op == 53
      then of_bool (not (sv_truthy D v))
      else if op == 50
      then complemented v
      else v

module _ {F W : Type 0} (D : Double F) (p : Program) (host : Host F W) where
  abbrev pub find_in_frames : List (Frame F) → ℕ → Option ℕ
  find_in_frames [] name = none
  find_in_frames (f ∷ fs) name = frame_find f name

  abbrev pub or_global : Option ℕ → ℕ → Lval
  or_global (some i) name = cell (local i)
  or_global none name = elim (find_global p.globals name) [
    | none ↦ nowhere
    | some i ↦ cell (global i)
  ]

  unfoldable mutual
    unfolding find_global frame_find

    pub resolve_lvalue : List (Frame F) → Expr → Lval
    resolve_lvalue fs Expr.null = nowhere
    resolve_lvalue fs (expr _ _ n) = resolve_node fs n

    pub resolve_node : List (Frame F) → Node → Lval
    resolve_node fs (ident i) = or_global (find_in_frames fs i) i
    resolve_node fs (member b m) = axis_of (resolve_lvalue fs b) m
    resolve_node fs _ = nowhere

  abbrev pub resolve : Expr → Run F W Lval
  resolve e = gets (λ vm. resolve_lvalue vm.frames e)

  -- x.u.f: an integer is made a double before, and in a vector the field is the x component.
  abbrev pub float_field : SValue F → Run F W F
  float_field (float f) = pure f
  float_field (integer i) = pure (D.of_int i)
  float_field void = pure (f_zero D)
  float_field (vector x _ _) = pure x
  float_field (rotation x _ _ _) = pure x
  float_field _ = faulted

  -- A text with the tag that the literal carries.
  abbrev pub tagged : ℕ → Str → Run F W (SValue F)
  tagged ty s =
      if ty == 3
      then pure (string s)
      else if ty == 4
      then pure (key s)
      else if ty == 0
      then pure void
      else faulted

  abbrev pub global_or_constant : Lval → ℕ → Run F W (SValue F)
  global_or_constant (cell c) name = read_cell c
  global_or_constant _ name = pure (host.constant (prog_str p name))

  unfoldable pub eval_ident : ℕ → Run F W (SValue F)
  unfolding resolve_lvalue read_cell prog_str
  eval_ident name = do lv ← resolve (expr 0 0 (ident name)); global_or_constant lv name

  abbrev pub step_member : ℕ → Cell → ℕ → SValue F → Run F W (SValue F)
  step_member op c m (vector x y z) =
      let f = step_float D op (step_axis x y z m) in
      do write_cell c (set_step_axis x y z m f); pure (float f)
  step_member op c m _ = faulted

  abbrev pub eval_step : ℕ → Lval → Run F W (SValue F)
  eval_step op nowhere = pure (integer (pos 0))
  eval_step op (cell c) = do
    cur ← read_cell c
    write_cell c (stepped D op cur)
    pure (stepped D op cur)
  eval_step op (axis c m) = do cur ← read_cell c; step_member op c m cur

  abbrev pub or_trap : Option (SValue F) → Run F W (SValue F)
  or_trap none = faulted
  or_trap (some v) = pure v

  abbrev pub ret_of : List (Frame F) → Run F W (SValue F)
  ret_of [] = faulted
  ret_of (f ∷ fs) = pure f.ret_val

  -- *out = sv_copy(&f.ret_val), of the frame that was pushed.
  unfoldable pub top_ret : Run F W (SValue F)
  top_ret vm = ret_of vm.frames vm

  module _ (r : Rec F W) where
    unfoldable pub eval_float : Expr → Run F W F
    unfolding coerce
    eval_float e = do v ← r.eval e; float_field (coerce D v sv_float)

    unfoldable pub eval_args : Exprs → Run F W (List (SValue F))
    eval_args Exprs.nil = pure []
    eval_args (Exprs.cons e es) = do v ← r.eval e; vs ← eval_args es; pure (v ∷ vs)

    unfoldable pub bind_params : List Param → Exprs → Frame F → Run F W (Frame F)
    unfolding coerce frame_define
    bind_params [] es f = pure f
    bind_params (q ∷ qs) Exprs.nil f = pure f
    bind_params (q ∷ qs) (Exprs.cons e es) f = do
      v ← r.eval e
      bind_params qs es (frame_define f q.name_idx (coerce D v q.type))

    unfoldable pub run_user_func : FuncDecl → Exprs → Run F W (SValue F)
    unfolding bind_params frame_push frame_pop top_ret
    run_user_func fd args = do
      f ← bind_params fd.params args frame_init
      frame_push f
      r.exec fd.body
      out ← top_ret
      frame_pop
      pure out

    abbrev pub call_builtin :
        Option ((Expr → Run F W (SValue F)) → List (SValue F) → Run F W (SValue F))
        → List (SValue F)
        → Run F W (SValue F)
    call_builtin none args = pure void
    call_builtin (some fn) args = fn r.eval args

    abbrev pub eval_call_to : Option FuncDecl → ℕ → Exprs → Run F W (SValue F)
    eval_call_to (some fd) name args = run_user_func fd args
    eval_call_to none name args = do
      vs ← eval_args args
      call_builtin (host.builtin (prog_str p name)) vs

    unfoldable pub eval_call : ℕ → Exprs → Run F W (SValue F)
    unfolding find_func run_user_func eval_args prog_str
    eval_call name args = eval_call_to (find_func p.funcs name) name args

    unfoldable pub eval_unary : ℕ → Expr → Run F W (SValue F)
    unfolding resolve_lvalue unary_value read_cell write_cell
    eval_unary op inner =
        if op == 62 || op == 63
        then (do lv ← resolve inner; eval_step op lv)
        else do v ← r.eval inner; pure (unary_value D op v)

    abbrev pub postfix_at : ℕ → Lval → Run F W (SValue F)
    postfix_at op (cell c) = do old ← read_cell c; write_cell c (stepped D op old); pure old
    postfix_at op _ = pure (integer (pos 0))

    unfoldable pub eval_postfix : ℕ → Expr → Run F W (SValue F)
    unfolding resolve_lvalue read_cell write_cell
    eval_postfix op inner = do lv ← resolve inner; postfix_at op lv

    -- The right side's truth, as 0 or 1.
    abbrev pub eval_truth : Expr → Run F W (SValue F)
    eval_truth e = do v ← r.eval e; pure (of_bool (sv_truthy D v))

    unfoldable pub eval_binary_node : ℕ → Expr → Expr → Run F W (SValue F)
    unfolding sv_truthy eval_binary
    eval_binary_node op l r' =
        if op == 51
        then (do v ← r.eval l; if sv_truthy D v then eval_truth r' else pure (of_bool false))
        else if op == 52
        then (do v ← r.eval l; if sv_truthy D v then pure (of_bool true) else eval_truth r')
        else do a ← r.eval l; b ← r.eval r'; or_trap (eval_binary D op a b)

    -- The operator of a compound assignment.
    abbrev pub assign_op : ℕ → ℕ
    assign_op op =
        if op == 38
        then 43
        else if op == 39
        then 44
        else if op == 40
        then 45
        else if op == 41
        then 46
        else 42

    abbrev pub axis_current : SValue F → ℕ → SValue F
    axis_current (vector x y z) m = float (step_axis x y z m)
    axis_current _ m = void

    abbrev pub current : Lval → Run F W (SValue F)
    current nowhere = pure void
    current (cell c) = read_cell c
    current (axis c m) = do v ← read_cell c; pure (axis_current v m)

    abbrev pub float_or_zero : SValue F → F
    float_or_zero (float f) = f
    float_or_zero (integer i) = D.of_int i
    float_or_zero _ = f_zero D

    -- The type to coerce to: that of the cell, unless it holds void.
    abbrev pub target_type : SValue F → SValue F → ℕ
    target_type void v = type_of v
    target_type w v = type_of w

    abbrev pub store_axis : Cell → ℕ → SValue F → SValue F → Run F W (SValue F)
    store_axis c m (vector x y z) rhs =
        let v = coerce D rhs sv_float in
        do write_cell c (set_axis (vector x y z) m (float_or_zero v)); pure v
    store_axis c m (rotation x y z s) rhs =
        let v = coerce D rhs sv_float in
        do write_cell c (set_axis (rotation x y z s) m (float_or_zero v)); pure v
    store_axis c m _ rhs = pure rhs

    abbrev pub store : Lval → SValue F → Run F W (SValue F)
    store nowhere rhs = pure rhs
    store (cell c) rhs = do
      old ← read_cell c
      let v = coerce D rhs (target_type old rhs)
      write_cell c v
      pure v
    store (axis c m) rhs = do w ← read_cell c; store_axis c m w rhs

    abbrev pub combined : ℕ → Lval → SValue F → Run F W (SValue F)
    combined op lv rhs =
        if op == 36
        then pure rhs
        else do cur ← current lv; or_trap (eval_binary D (assign_op op) cur rhs)

    unfoldable pub eval_assign : ℕ → Expr → Expr → Run F W (SValue F)
    unfolding resolve_lvalue eval_binary coerce read_cell write_cell
    eval_assign op l r' = do lv ← resolve l; rhs ← r.eval r'; v ← combined op lv rhs; store lv v

    unfoldable pub eval_node : ℕ → Node → Run F W (SValue F)
    unfolding eval_float eval_args eval_ident eval_unary eval_postfix eval_binary_node eval_assign
        eval_call do_cast prog_str
    eval_node ty (int_lit i) = pure (integer i)
    eval_node ty (float_lit b) = pure (float (D.of_bits b))
    eval_node ty (string_lit i) = tagged ty (prog_str p i)
    eval_node ty (ident i) = eval_ident i
    eval_node ty (vector_lit x y z) = do
      a ← eval_float x
      b ← eval_float y
      c ← eval_float z
      pure (vector a b c)
    eval_node ty (rot_lit x y z w) = do
      a ← eval_float x
      b ← eval_float y
      c ← eval_float z
      d ← eval_float w
      pure (rotation a b c d)
    eval_node ty (list_lit es) = do vs ← eval_args es; pure (list (of_items vs))
    eval_node ty (call f es) = eval_call f es
    eval_node ty (member b m) = do v ← r.eval b; pure (float (axis_value D v m))
    eval_node ty (cast t e) = do v ← r.eval e; pure (do_cast D v t)
    eval_node ty (unary op e) = eval_unary op e
    eval_node ty (postfix op e) = eval_postfix op e
    eval_node ty (binary op l r') = eval_binary_node op l r'
    eval_node ty (assign op l r') = eval_assign op l r'

    unfoldable pub eval_with : Expr → Run F W (SValue F)
    unfolding eval_node
    eval_with Expr.null = pure void
    eval_with (expr ty _ n) = eval_node ty n
