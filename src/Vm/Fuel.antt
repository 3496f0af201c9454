-- ===== src/Vm/Fuel.antt =====
-- The interpreter of src/vm.c on different fuel, and what a built-in must be for the fuel not to
-- matter to it: it asks the evaluator that it is given for nothing but answers.
use sakura_slemu.Base.{
  ℕ, zero, suc, ◌+◌, ◌≤◌, ◌≡◌, refl, Bool, true, false, Option, none, some, List, [], ◌∷◌, Str, ◌⊎◌,
  inl, inr, if◌then◌else◌, subst, arith,
}
use sakura_slemu.Double.{Double}
use sakura_slemu.Syntax.{
  Expr, expr, Exprs, Node, Stmt, stmt, Stmts, Form, Param, FuncDecl, Program, int_lit, float_lit,
  string_lit, ident, vector_lit, rot_lit, list_lit, call, member, cast, unary, postfix, binary,
  assign, expr_s, decl, block, if_s, while_s, do_s, for_s, ret, jump, label, state_chg, empty,
}
use sakura_slemu.Value.{SValue}
use sakura_slemu.Vm.Outcome.{Outcome, done, fault, no_fuel, Action, after, exhausted, ◌>>=◌}
use sakura_slemu.Vm.State.{Run, Frame}
use sakura_slemu.Vm.Eval.{
  Rec, Host, eval_float, eval_args, bind_params, run_user_func, call_builtin, eval_call_to,
  eval_call, eval_unary, eval_postfix, eval_binary_node, eval_assign, eval_node, eval_with,
}
use sakura_slemu.Vm.Exec.{
  exec_with, exec_form, run_block, drop_stmts, eval_all, resume_at, while_loop, do_loop, for_loop,
  unless_stops, for_test, test, exec_return, safety,
}
use sakura_slemu.Vm.Machine.{machine}

-- The right side answers as the left, or the left ran out of fuel.
abbrev pub LeqOutcome : {S A : Type 0} → Outcome S A → Outcome S A → Type 0
LeqOutcome o o' = (o ≡ no_fuel) ⊎ (o ≡ o')

pub record Below {S A : Type 0} (m n : Action S A) : Type 0 where
  pub at : (s : S) → LeqOutcome (m s) (n s)

module _ {S A : Type 0} where
  pub Below-refl : (m : Action S A) → Below m m
  Below-refl m = record { at = λ s. inr refl }

  pub Below-exhausted : (m : Action S A) → Below exhausted m
  Below-exhausted m = record { at = λ s. inl refl }

  pub Below-if :
      (b : Bool) {m m' n n' : Action S A}
      → Below m m'
      → Below n n'
      → Below (if b then m else n) (if b then m' else n')
  Below-if true h k = h
  Below-if false h k = k

module _ {S A B : Type 0} where
  after-Leq :
      (o o' : Outcome S A) (f f' : A → Action S B)
      → LeqOutcome o o'
      → ((a : A) → Below (f a) (f' a))
      → LeqOutcome (after o f) (after o' f')
  after-Leq (done a s) o' f f' (inl e) hf = cc
  after-Leq fault o' f f' (inl e) hf = cc
  after-Leq no_fuel o' f f' h hf = inl refl
  after-Leq (done a s) o' f f' (inr e) hf =
      subst (λ z. LeqOutcome (f a s) (after z f')) e ((hf a).at s)
  after-Leq fault o' f f' (inr e) hf = subst (λ z. LeqOutcome fault (after z f')) e (inr refl)

  pub Below-bind :
      {m m' : Action S A} {f f' : A → Action S B}
      → Below m m'
      → ((a : A) → Below (f a) (f' a))
      → Below (m >>= f) (m' >>= f')
  Below-bind hm hf = record { at = λ s. after-Leq _ _ _ _ (hm.at s) hf }

pub ruleset below_rules = (Below-refl, Below-if, Below-bind)

-- One interpreter below another, and a built-in that asks no more of its interpreter than its answers.
pub record BelowRec {F W : Type 0} (r r' : Rec F W) : Type 0 where
  pub eval : (e : Expr) → Below (r.eval e) (r'.eval e)
  pub exec : (s : Stmt) → Below (r.exec s) (r'.exec s)
  pub resume : (ss : Stmts) (i : ℕ) → Below (r.resume ss i) (r'.resume ss i)

abbrev pub BuiltinMonotone :
    {F W : Type 0}
    → Option ((Expr → Run F W (SValue F)) → List (SValue F) → Run F W (SValue F))
    → Type 0
BuiltinMonotone none = Unit
BuiltinMonotone {F} {W} (some fn) =
    (ev ev' : Expr → Run F W (SValue F))
    → ((e : Expr) → Below (ev e) (ev' e))
    → (args : List (SValue F)) → Below (fn ev args) (fn ev' args)

abbrev pub HostMonotone : {F W : Type 0} → Host F W → Type 0
HostMonotone host = (name : Str) → BuiltinMonotone (host.builtin name)

module _ {F W : Type 0} (D : Double F) (p : Program) (host : Host F W) (hm : HostMonotone host)
    {r r' : Rec F W} (h : BelowRec r r') where
  float-Below : (e : Expr) → Below (eval_float D p host r e) (eval_float D p host r' e)
  unfolding eval_float
  float-Below e = search (below_rules, h.eval) depth 30

  args-Below : (es : Exprs) → Below (eval_args D p host r es) (eval_args D p host r' es)
  unfolding eval_args
  args-Below Exprs.nil = Below-refl _
  args-Below (Exprs.cons e es) =
      Below-bind (h.eval e) λ v. Below-bind (args-Below es) λ vs. Below-refl _

  params-Below :
      (qs : List Param) (es : Exprs) (f : Frame F)
      → Below (bind_params D p host r qs es f) (bind_params D p host r' qs es f)
  unfolding bind_params
  params-Below [] es f = Below-refl _
  params-Below (q ∷ qs) Exprs.nil f = Below-refl _
  params-Below (q ∷ qs) (Exprs.cons e es) f = Below-bind (h.eval e) λ v. params-Below qs es _

  user-Below :
      (fd : FuncDecl) (es : Exprs)
      → Below (run_user_func D p host r fd es) (run_user_func D p host r' fd es)
  unfolding run_user_func
  user-Below fd es = search (below_rules, params-Below, h.exec) depth 30

  builtin-Below :
      (o : Option ((Expr → Run F W (SValue F)) → List (SValue F) → Run F W (SValue F)))
      (args : List (SValue F))
      → BuiltinMonotone o
      → Below (call_builtin D p host r o args) (call_builtin D p host r' o args)
  builtin-Below none args k = Below-refl _
  builtin-Below (some fn) args k = k r.eval r'.eval h.eval args

  call_to-Below :
      (o : Option FuncDecl) (name : ℕ) (es : Exprs)
      → Below (eval_call_to D p host r o name es) (eval_call_to D p host r' o name es)
  call_to-Below (some fd) name es = user-Below fd es
  call_to-Below none name es = Below-bind (args-Below es) λ vs. builtin-Below _ vs (hm _)

  node-Below : (ty : ℕ) (n : Node) → Below (eval_node D p host r ty n) (eval_node D p host r' ty n)
  unfolding eval_node eval_unary eval_postfix eval_binary_node eval_assign eval_call
  node-Below ty (int_lit i) = Below-refl _
  node-Below ty (float_lit b) = Below-refl _
  node-Below ty (string_lit i) = Below-refl _
  node-Below ty (ident i) = Below-refl _
  node-Below ty (vector_lit x y z) = search (below_rules, float-Below) depth 30
  node-Below ty (rot_lit x y z w) = search (below_rules, float-Below) depth 30
  node-Below ty (list_lit es) = search (below_rules, args-Below) depth 30
  node-Below ty (call f es) = call_to-Below _ f es
  node-Below ty (member b m) = search (below_rules, h.eval) depth 30
  node-Below ty (cast t e) = search (below_rules, h.eval) depth 30
  node-Below ty (unary op e) = search (below_rules, h.eval) depth 30
  node-Below ty (postfix op e) = Below-refl _
  node-Below ty (binary op l r'') = search (below_rules, h.eval) depth 30
  node-Below ty (assign op l r'') = search (below_rules, h.eval) depth 30

  eval-Below : (e : Expr) → Below (eval_with D p host r e) (eval_with D p host r' e)
  unfolding eval_with
  eval-Below Expr.null = Below-refl _
  eval-Below (expr ty lv n) = node-Below ty n

module _ {F W : Type 0} (D : Double F) (p : Program) {r r' : Rec F W} (h : BelowRec r r') where
  test-Below : (e : Expr) → Below (test D p r e) (test D p r' e)
  test-Below e = Below-bind (h.eval e) λ v. Below-refl _

  all-Below : (es : Exprs) → Below (eval_all D p r es) (eval_all D p r' es)
  unfolding eval_all
  all-Below Exprs.nil = Below-refl _
  all-Below (Exprs.cons e es) = Below-bind (h.eval e) λ _. all-Below es

  resume-Below :
      (all : Stmts) (o : Option ℕ) → Below (resume_at D p r all o) (resume_at D p r' all o)
  resume-Below all none = Below-refl _
  resume-Below all (some i) = Below-bind (Below-refl _) λ _. h.resume all (i + 1)

  block-Below : (all ss : Stmts) → Below (run_block D p r all ss) (run_block D p r' all ss)
  unfolding run_block
  block-Below all Stmts.nil = Below-refl _
  block-Below all (Stmts.cons s ss) =
      let next = block-Below all ss in search (below_rules, h.exec, resume-Below) depth 30

  unless-Below :
      {m m' : Run F W (Unit {0})}
      → Below m m'
      → Below (unless_stops D p r m) (unless_stops D p r' m')
  unless-Below k = search below_rules depth 30

  while-Below :
      (c : Expr) (b : Stmt) (n : ℕ) → Below (while_loop D p r c b n) (while_loop D p r' c b n)
  unfolding while_loop
  while-Below c b zero = Below-refl _
  while-Below c b (suc n) =
      Below-bind (test-Below c)
        λ t. Below-if t (Below-bind (h.exec b) λ _. unless-Below (while-Below c b n)) (Below-refl _)

  do-Below : (b : Stmt) (c : Expr) (n : ℕ) → Below (do_loop D p r b c n) (do_loop D p r' b c n)
  unfolding do_loop
  do-Below b c zero = Below-refl _
  do-Below b c (suc n) =
      Below-bind (h.exec b) λ _.
        unless-Below (Below-bind (test-Below c) λ t. Below-if t (do-Below b c n) (Below-refl _))

  for_test-Below : (c : Expr) → Below (for_test D p r c) (for_test D p r' c)
  for_test-Below Expr.null = Below-refl _
  for_test-Below (expr ty lv n) = test-Below _

  for-Below :
      (c : Expr) (post : Exprs) (b : Stmt) (n : ℕ)
      → Below (for_loop D p r c post b n) (for_loop D p r' c post b n)
  unfolding for_loop
  for-Below c post b zero = Below-refl _
  for-Below c post b (suc n) = Below-bind (for_test-Below c) λ t.
      Below-if t
        (Below-bind (h.exec b)
          λ _. unless-Below (Below-bind (all-Below post) λ _. for-Below c post b n))
        (Below-refl _)

  return-Below :
      (has : ℕ) (e : Expr) (fs : List (Frame F))
      → Below (exec_return D p r has e fs) (exec_return D p r' has e fs)
  return-Below has e [] = Below-refl _
  return-Below has e (_ ∷ _) = search (below_rules, h.eval) depth 30

  form-Below : (f : Form) → Below (exec_form D p r f) (exec_form D p r' f)
  unfolding exec_form
  form-Below (expr_s e) = Below-bind (h.eval e) λ _. Below-refl _
  form-Below (decl t i e) = Below-bind (h.eval e) λ _. Below-refl _
  form-Below (block ss) = search (below_rules, block-Below) depth 30
  form-Below (if_s c t e) = Below-bind (test-Below c) λ b. Below-if b (h.exec t) (h.exec e)
  form-Below (while_s c b) = while-Below c b safety
  form-Below (do_s b c) = do-Below b c safety
  form-Below (for_s is c ps b) = search (below_rules, all-Below, for-Below) depth 30
  form-Below (ret has e) = search (below_rules, return-Below) depth 30
  form-Below (jump name) = Below-refl _
  form-Below (label name) = Below-refl _
  form-Below (state_chg name) = Below-refl _
  form-Below empty = Below-refl _

  exec-Below : (s : Stmt) → Below (exec_with D p r s) (exec_with D p r' s)
  unfolding exec_with
  exec-Below Stmt.null = Below-refl _
  exec-Below (stmt line f) = search (below_rules, form-Below) depth 30

module _ {F W : Type 0} (D : Double F) (p : Program) (host : Host F W)
    (hm : HostMonotone host) where
  machine-Below : (n m : ℕ) → n ≤ m → BelowRec (machine D p host n) (machine D p host m)
  unfolding machine
  machine-Below zero m le = record {
    eval = λ e. Below-exhausted _;
    exec = λ s. Below-exhausted _;
    resume = λ ss i. Below-exhausted _;
  }
  machine-Below (suc n) zero le = absurd (omega arith)
  machine-Below (suc n) (suc m) le =
      let h : BelowRec (machine D p host n) (machine D p host m) =
        machine-Below n m (omega arith) in
      record {
        eval = eval-Below D p host hm h;
        exec = exec-Below D p h;
        resume = λ ss i. block-Below D p h ss (drop_stmts i ss);
      }
