-- ===== src/Vm/Logic/Evaluation.antt =====
-- src/vm.c: evaluating an expression has every property of `Logic.Rules`, calls of functions included.
use sakura_slemu.Base.{ℕ, Option, none, some, List, [], ◌∷◌, Str, arith}
use sakura_slemu.Double.{Double}
use sakura_slemu.Syntax.{
  Expr, expr, Exprs, Node, Param, FuncDecl, Program, int_lit, float_lit, string_lit, ident,
  vector_lit, rot_lit, list_lit, call, member, cast, unary, postfix, binary, assign,
}
use sakura_slemu.Value.{SValue, void, integer, float, string, key, vector, rotation, list}
use sakura_slemu.Vm.Outcome.{◌>>=◌}
use sakura_slemu.Vm.State.{Frame, Run, Cell, frame_init, frame_define}
use sakura_slemu.Vm.Binary.{coerce}
use sakura_slemu.Vm.Eval.{
  Rec, Host, Lval, nowhere, cell, axis, float_field, global_or_constant, eval_ident, step_member,
  eval_step, or_trap, eval_float, eval_args, bind_params, run_user_func, call_builtin, eval_call_to,
  eval_call, eval_unary, postfix_at, eval_postfix, eval_binary_node, current, store_axis, store,
  combined, eval_assign, eval_node, eval_with,
}
use sakura_slemu.Vm.Logic.Rules.{
  Logic, Fresh, Holds, Holds-pure, Holds-faulted, Holds-bind, Holds-read_cell, holds_rules,
  HoldsRec,
}

abbrev pub BuiltinHolds :
    {F W : Type 0}
    → Logic F W
    → Option ((Expr → Run F W (SValue F)) → List (SValue F) → Run F W (SValue F))
    → Type 0
BuiltinHolds L none = Unit
BuiltinHolds {F} {W} L (some fn) =
    (ev : Expr → Run F W (SValue F))
    → ((e : Expr) → Holds L (ev e))
    → (args : List (SValue F)) → Holds L (fn ev args)

-- Every built-in has the property, if the evaluator that it is given does.
abbrev pub HostHolds : {F W : Type 0} → Logic F W → Host F W → Type 0
HostHolds L host = (name : Str) → BuiltinHolds L (host.builtin name)

module _ {F : Type 0} where
  pub Fresh-define :
      (f : Frame F) (name : ℕ) (v : SValue F) → Fresh f → Fresh (frame_define f name v)
  unfolding frame_define
  Fresh-define f name v h = (omega arith, h)

module _ {F W : Type 0} {L : Logic F W} (D : Double F) (p : Program) (host : Host F W) where
  field-Holds : (v : SValue F) → Holds L (float_field D p host v)
  field-Holds (float f) = Holds-pure f
  field-Holds (integer i) = Holds-pure _
  field-Holds void = Holds-pure _
  field-Holds (vector x _ _) = Holds-pure x
  field-Holds (rotation x _ _ _) = Holds-pure x
  field-Holds (string _) = Holds-faulted
  field-Holds (key _) = Holds-faulted
  field-Holds (list _) = Holds-faulted

  ident_at-Holds : (lv : Lval) (name : ℕ) → Holds L (global_or_constant D p host lv name)
  ident_at-Holds nowhere name = Holds-pure _
  ident_at-Holds (cell c) name = Holds-read_cell c
  ident_at-Holds (axis _ _) name = Holds-pure _

  ident-Holds : (name : ℕ) → Holds L (eval_ident D p host name)
  unfolding eval_ident
  ident-Holds name = search (holds_rules, ident_at-Holds) depth 30

  step_member-Holds :
      (op : ℕ) (c : Cell) (m : ℕ) (v : SValue F) → Holds L (step_member D p host op c m v)
  step_member-Holds op c m (vector x y z) = search holds_rules depth 30
  step_member-Holds op c m (float f) = Holds-faulted
  step_member-Holds op c m (integer i) = Holds-faulted
  step_member-Holds op c m void = Holds-faulted
  step_member-Holds op c m (rotation x _ _ _) = Holds-faulted
  step_member-Holds op c m (string _) = Holds-faulted
  step_member-Holds op c m (key _) = Holds-faulted
  step_member-Holds op c m (list _) = Holds-faulted

  step-Holds : (op : ℕ) (lv : Lval) → Holds L (eval_step D p host op lv)
  step-Holds op nowhere = Holds-pure _
  step-Holds op (cell c) = search holds_rules depth 30
  step-Holds op (axis c m) = search (holds_rules, step_member-Holds) depth 30

  trap-Holds : (o : Option (SValue F)) → Holds L (or_trap D p host o)
  trap-Holds none = Holds-faulted
  trap-Holds (some v) = Holds-pure v

  module _ (hk : HostHolds L host) {r : Rec F W} (h : HoldsRec L r) where
    float-Holds : (e : Expr) → Holds L (eval_float D p host r e)
    unfolding eval_float
    float-Holds e = search (holds_rules, h.eval, field-Holds) depth 30

    args-Holds : (es : Exprs) → Holds L (eval_args D p host r es)
    unfolding eval_args
    args-Holds Exprs.nil = Holds-pure _
    args-Holds (Exprs.cons e es) =
        Holds-bind _ _ (h.eval e) λ v. Holds-bind _ _ (args-Holds es) λ vs. Holds-pure _

    -- The frame that bind_params gives is fresh.
    params-Holds :
        (qs : List Param) (es : Exprs) (f : Frame F) (k : Frame F → Run F W (SValue F))
        → Fresh f
        → ((g : Frame F) → Fresh g → Holds L (k g))
        → Holds L (bind_params D p host r qs es f >>= k)
    unfolding bind_params
    params-Holds [] es f k s hk' = hk' f s
    params-Holds (q ∷ qs) Exprs.nil f k s hk' = hk' f s
    params-Holds (q ∷ qs) (Exprs.cons e es) f k s hk' = record {
      at =
          L.on_assoc (r.eval e)
            (λ v. bind_params D p host r qs es (frame_define f q.name_idx (coerce D v q.type))) k
            (Holds-bind _ _ (h.eval e) λ v.
              params-Holds qs es (frame_define f q.name_idx (coerce D v q.type)) k
                (Fresh-define f q.name_idx (coerce D v q.type) s) hk').at;
    }

    user-Holds : (fd : FuncDecl) (es : Exprs) → Holds L (run_user_func D p host r fd es)
    unfolding run_user_func
    user-Holds fd es =
        params-Holds fd.params es frame_init _ tt
          λ f s. record { at = L.on_call D p host f (r.exec fd.body) s (h.exec fd.body).at }

    builtin-Holds :
        (o : Option ((Expr → Run F W (SValue F)) → List (SValue F) → Run F W (SValue F)))
        (args : List (SValue F))
        → BuiltinHolds L o
        → Holds L (call_builtin D p host r o args)
    builtin-Holds none args k = Holds-pure _
    builtin-Holds (some fn) args k = k r.eval h.eval args

    call_to-Holds :
        (o : Option FuncDecl) (name : ℕ) (es : Exprs) → Holds L (eval_call_to D p host r o name es)
    call_to-Holds (some fd) name es = user-Holds fd es
    call_to-Holds none name es = Holds-bind _ _ (args-Holds es) λ vs. builtin-Holds _ vs (hk _)

    postfix_at-Holds : (op : ℕ) (lv : Lval) → Holds L (postfix_at D p host r op lv)
    postfix_at-Holds op nowhere = Holds-pure _
    postfix_at-Holds op (cell c) = search holds_rules depth 30
    postfix_at-Holds op (axis _ _) = Holds-pure _

    current-Holds : (lv : Lval) → Holds L (current D p host r lv)
    current-Holds nowhere = Holds-pure _
    current-Holds (cell c) = Holds-read_cell c
    current-Holds (axis c m) = search holds_rules depth 30

    combined-Holds : (op : ℕ) (lv : Lval) (v : SValue F) → Holds L (combined D p host r op lv v)
    combined-Holds op lv v = search (holds_rules, current-Holds, trap-Holds) depth 30

    store_axis-Holds : (c : Cell) (m : ℕ) (w v : SValue F) → Holds L (store_axis D p host r c m w v)
    store_axis-Holds c m (vector x y z) v = search holds_rules depth 30
    store_axis-Holds c m (rotation x y z s) v = search holds_rules depth 30
    store_axis-Holds c m (float f) v = Holds-pure _
    store_axis-Holds c m (integer i) v = Holds-pure _
    store_axis-Holds c m void v = Holds-pure _
    store_axis-Holds c m (string _) v = Holds-pure _
    store_axis-Holds c m (key _) v = Holds-pure _
    store_axis-Holds c m (list _) v = Holds-pure _

    store-Holds : (lv : Lval) (v : SValue F) → Holds L (store D p host r lv v)
    store-Holds nowhere v = Holds-pure _
    store-Holds (cell c) v = search holds_rules depth 30
    store-Holds (axis c m) v = search (holds_rules, store_axis-Holds) depth 30

    node-Holds : (ty : ℕ) (n : Node) → Holds L (eval_node D p host r ty n)
    unfolding eval_node eval_unary eval_postfix eval_binary_node eval_assign eval_call
    node-Holds ty (int_lit i) = Holds-pure _
    node-Holds ty (float_lit b) = Holds-pure _
    node-Holds ty (string_lit i) = search holds_rules depth 30
    node-Holds ty (ident i) = ident-Holds i
    node-Holds ty (vector_lit x y z) = search (holds_rules, float-Holds) depth 30
    node-Holds ty (rot_lit x y z w) = search (holds_rules, float-Holds) depth 30
    node-Holds ty (list_lit es) = search (holds_rules, args-Holds) depth 30
    node-Holds ty (call f es) = call_to-Holds _ f es
    node-Holds ty (member b m) = search (holds_rules, h.eval) depth 30
    node-Holds ty (cast t e) = search (holds_rules, h.eval) depth 30
    node-Holds ty (unary op e) = search (holds_rules, h.eval, step-Holds) depth 30
    node-Holds ty (postfix op e) = search (holds_rules, postfix_at-Holds) depth 30
    node-Holds ty (binary op l r') = search (holds_rules, h.eval, trap-Holds) depth 30
    node-Holds ty (assign op l r') =
        search (holds_rules, h.eval, combined-Holds, store-Holds) depth 30

    pub eval-Holds : (e : Expr) → Holds L (eval_with D p host r e)
    unfolding eval_with
    eval-Holds Expr.null = Holds-pure _
    eval-Holds (expr ty lv n) = node-Holds ty n
