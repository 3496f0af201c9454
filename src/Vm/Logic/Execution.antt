-- ===== src/Vm/Logic/Execution.antt =====
-- src/vm.c: running a statement has every property of `Logic.Rules`, and so has the interpreter.
use sakura_slemu.Base.{ℕ, zero, suc, ◌+◌, ◌≡◌, refl, true, Option, none, some, List, [], ◌∷◌}
use sakura_slemu.Double.{Double}
use sakura_slemu.Syntax.{
  Expr, expr, Exprs, Stmt, stmt, Stmts, Form, Program, expr_s, decl, block, if_s, while_s, do_s,
  for_s, ret, jump, label, state_chg, empty,
}
use sakura_slemu.Vm.State.{Frame, Vm, Run, frame_define}
use sakura_slemu.Vm.Eval.{Rec, Host}
use sakura_slemu.Vm.Exec.{
  declared, exec_with, exec_form, run_block, drop_stmts, eval_all, resume_at, while_loop, do_loop,
  for_loop, unless_stops, for_test, test, exec_return, safety, request_state,
}
use sakura_slemu.Vm.Machine.{machine}
use sakura_slemu.Vm.Logic.Rules.{
  Logic, Holds, Holds-pure, Holds-skip, Holds-bind, Holds-if, Holds-exhausted, Holds-flags,
  holds_rules, HoldsRec,
}
use sakura_slemu.Vm.Logic.Evaluation.{HostHolds, eval-Holds}

module _ {F W : Type 0} where
  request_frames : (o : Option ℕ) (vm : Vm F W) → (request_state o vm).frames ≡ vm.frames
  request_frames none vm = refl
  request_frames (some i) vm = refl

  request_world : (o : Option ℕ) (vm : Vm F W) → (request_state o vm).world ≡ vm.world
  request_world none vm = refl
  request_world (some i) vm = refl

module _ {F W : Type 0} {L : Logic F W} (D : Double F) (p : Program) {r : Rec F W}
    (h : HoldsRec L r) where
  test-Holds : (e : Expr) → Holds L (test D p r e)
  test-Holds e = search (holds_rules, h.eval) depth 30

  all-Holds : (es : Exprs) → Holds L (eval_all D p r es)
  unfolding eval_all
  all-Holds Exprs.nil = Holds-skip
  all-Holds (Exprs.cons e es) = Holds-bind _ _ (h.eval e) λ _. all-Holds es

  resume-Holds : (all : Stmts) (o : Option ℕ) → Holds L (resume_at D p r all o)
  resume-Holds all none = Holds-skip
  resume-Holds all (some i) =
      Holds-bind _ _ (Holds-flags _ (λ f. refl) (λ f. refl)) λ _. h.resume all (i + 1)

  pub block-Holds : (all ss : Stmts) → Holds L (run_block D p r all ss)
  unfolding run_block
  block-Holds all Stmts.nil = Holds-skip
  block-Holds all (Stmts.cons s ss) =
      let next = block-Holds all ss in search (holds_rules, h.exec, resume-Holds) depth 30

  unless-Holds : {m : Run F W (Unit {0})} → Holds L m → Holds L (unless_stops D p r m)
  unless-Holds k = search holds_rules depth 30

  while-Holds : (c : Expr) (b : Stmt) (n : ℕ) → Holds L (while_loop D p r c b n)
  unfolding while_loop
  while-Holds c b zero = Holds-skip
  while-Holds c b (suc n) = Holds-bind _ _ (test-Holds c) λ t.
      Holds-if t _ _ (Holds-bind _ _ (h.exec b) λ _. unless-Holds (while-Holds c b n)) Holds-skip

  do-Holds : (b : Stmt) (c : Expr) (n : ℕ) → Holds L (do_loop D p r b c n)
  unfolding do_loop
  do-Holds b c zero = Holds-skip
  do-Holds b c (suc n) = Holds-bind _ _ (h.exec b) λ _.
      unless-Holds (Holds-bind _ _ (test-Holds c) λ t. Holds-if t _ _ (do-Holds b c n) Holds-skip)

  for_test-Holds : (c : Expr) → Holds L (for_test D p r c)
  for_test-Holds Expr.null = Holds-pure true
  for_test-Holds (expr ty lv n) = test-Holds _

  for-Holds : (c : Expr) (post : Exprs) (b : Stmt) (n : ℕ) → Holds L (for_loop D p r c post b n)
  unfolding for_loop
  for-Holds c post b zero = Holds-skip
  for-Holds c post b (suc n) = Holds-bind _ _ (for_test-Holds c) λ t.
      Holds-if t _ _
        (Holds-bind _ _ (h.exec b)
          λ _. unless-Holds (Holds-bind _ _ (all-Holds post) λ _. for-Holds c post b n))
        Holds-skip

  return-Holds : (has : ℕ) (e : Expr) (fs : List (Frame F)) → Holds L (exec_return D p r has e fs)
  return-Holds has e [] = Holds-skip
  return-Holds has e (_ ∷ _) =
      Holds-bind _ _
        (Holds-if _ _ _ Holds-skip
          (Holds-bind _ _ (h.eval e) λ v. Holds-flags _ (λ f. refl) (λ f. refl)))
        λ _. Holds-flags _ (λ f. refl) (λ f. refl)

  form-Holds : (f : Form) → Holds L (exec_form D p r f)
  unfolding exec_form frame_define
  form-Holds (expr_s e) = search (holds_rules, h.eval) depth 30
  form-Holds (decl t i e) =
      Holds-bind _ _ (h.eval e) λ v. record { at = L.on_define i (declared D t v) }
  form-Holds (block ss) = record { at = L.on_scope _ (block-Holds ss ss).at }
  form-Holds (if_s c t e) = search (holds_rules, test-Holds, h.exec) depth 30
  form-Holds (while_s c b) = while-Holds c b safety
  form-Holds (do_s b c) = do-Holds b c safety
  form-Holds (for_s is c ps b) = record {
    at = L.on_scope2 _ _ (all-Holds is).at (for-Holds c ps b safety).at;
  }
  form-Holds (ret has e) = search (holds_rules, return-Holds) depth 30
  form-Holds (jump name) = Holds-flags _ (λ f. refl) (λ f. refl)
  form-Holds (label name) = Holds-skip
  form-Holds (state_chg name) = record { at = L.on_script _ (request_frames _) (request_world _) }
  form-Holds empty = Holds-skip

  exec-Holds : (s : Stmt) → Holds L (exec_with D p r s)
  unfolding exec_with
  exec-Holds Stmt.null = Holds-skip
  exec-Holds (stmt line f) = search (holds_rules, form-Holds) depth 30

module _ {F W : Type 0} {L : Logic F W} (D : Double F) (p : Program) (host : Host F W)
    (hk : HostHolds L host) where
  pub machine-Holds : (n : ℕ) → HoldsRec L (machine D p host n)
  unfolding machine
  machine-Holds zero = record {
    eval = λ e. Holds-exhausted;
    exec = λ s. Holds-exhausted;
    resume = λ ss i. Holds-exhausted;
  }
  machine-Holds (suc n) =
      let h : HoldsRec L (machine D p host n) = machine-Holds n in
      record {
        eval = eval-Holds D p host hk h;
        exec = exec-Holds D p h;
        resume = λ ss i. block-Holds D p h ss (drop_stmts i ss);
      }
