-- ===== src/Vm/Exec.antt =====
-- src/vm.c: vm_exec and vm_dispatch. The result code of vm_exec has no reader and is left out, and
-- the debugger's hook is off (dbg.enabled is 0).
use sakura_slemu.Base.{
  ℕ, zero, suc, ◌+◌, Bool, true, false, ◌||◌, Option, none, some, List, [], ◌∷◌, Str, ◌==◌,
  if◌then◌else◌, str_eq, pos,
}
use sakura_slemu.Double.{Double}
use sakura_slemu.Syntax.{
  Expr, expr, Exprs, Stmt, stmt, Form, expr_s, decl, block, if_s, while_s, do_s, for_s, ret, jump,
  label, state_chg, empty, Stmts, StateDecl, Program, prog_str,
}
use sakura_slemu.Value.{
  SValue, void, integer, float, string, key, vector, rotation, list, nil, sv_truthy, f_zero, f_one,
  null_key, sv_integer, sv_float, sv_string, sv_key, sv_vector, sv_rotation, sv_list,
}
use sakura_slemu.Vm.Outcome.{pure, gets, modify, skip, ◌>>=◌, ◌>>◌}
use sakura_slemu.Vm.State.{
  Frame, Vm, Run, frame_define, frame_enter, frame_leave, with_frame, top_flag,
}
use sakura_slemu.Vm.Binary.{coerce}
use sakura_slemu.Vm.Eval.{Rec}

-- The index of the first label of a name in a block.
unfoldable pub find_label_in : Stmts → ℕ → Option ℕ
find_label_in Stmts.nil name = none
find_label_in (Stmts.cons (stmt line (label i)) ss) name =
    let rest = find_label_in ss name in
    if i == name then some 0 else elim rest [ none ↦ none | some k ↦ some (suc k) ]
find_label_in (Stmts.cons _ ss) name =
    let rest = find_label_in ss name in elim rest [ none ↦ none | some k ↦ some (suc k) ]

abbrev pub drop_stmts : ℕ → Stmts → Stmts
drop_stmts zero ss = ss
drop_stmts (suc n) Stmts.nil = Stmts.nil
drop_stmts (suc n) (Stmts.cons _ ss) = drop_stmts n ss

-- The first state of a name.
unfoldable pub find_state : Program → Str → List StateDecl → Option ℕ
unfolding prog_str
find_state p want [] = none
find_state p want (s ∷ ss) =
    let rest = find_state p want ss in
    if str_eq (prog_str p s.name_idx) want
    then some 0
    else elim rest [ none ↦ none | some k ↦ some (suc k) ]

-- The bound of every loop on its rounds.
abbrev pub safety : ℕ
safety = 1000000

abbrev pub is_pending : Option ℕ → Bool
is_pending none = false
is_pending (some _) = true

module _ {F : Type 0} (D : Double F) where
  -- The zero of a declared type; void for a type without one.
  abbrev pub zero_of : ℕ → SValue F
  zero_of t =
      if t == sv_integer
      then integer (pos 0)
      else if t == sv_float
      then float (f_zero D)
      else if t == sv_string
      then string []
      else if t == sv_key
      then key null_key
      else if t == sv_vector
      then vector (f_zero D) (f_zero D) (f_zero D)
      else if t == sv_rotation
      then rotation (f_zero D) (f_zero D) (f_zero D) (f_one D)
      else if t == sv_list
      then list nil
      else void

  abbrev pub declared : ℕ → SValue F → SValue F
  declared t void = zero_of t
  declared t v = coerce D v t

abbrev pub jump_target : {F : Type 0} → List (Frame F) → ℕ
jump_target [] = 0
jump_target (f ∷ fs) = f.jump_name_idx

module _ {F W : Type 0} where
  -- g_frame && (g_frame->returning || g_frame->jumping)
  abbrev pub unwinding : Vm F W → Bool
  unwinding vm = top_flag (λ f. f.returning || f.jumping) vm.frames

  abbrev pub is_returning : Vm F W → Bool
  is_returning vm = top_flag (λ f. f.returning) vm.frames

  abbrev pub is_jumping : Vm F W → Bool
  is_jumping vm = top_flag (λ f. f.jumping) vm.frames

  -- A loop stops after its body.
  abbrev pub stops : Vm F W → Bool
  stops vm = unwinding vm || is_pending vm.pending_state

  abbrev pub request_state : Option ℕ → Vm F W → Vm F W
  request_state none vm = vm
  request_state (some i) vm = record vm { pending_state = some i }

module _ {F W : Type 0} (D : Double F) (p : Program) (r : Rec F W) where
  abbrev pub test : Expr → Run F W Bool
  test e = do v ← r.eval e; pure (sv_truthy D v)

  unfoldable pub eval_all : Exprs → Run F W (Unit {0})
  eval_all Exprs.nil = skip
  eval_all (Exprs.cons e es) = do _ ← r.eval e; eval_all es

  -- A jump goes on behind its label in this block, or leaves the block.
  abbrev pub resume_at : Stmts → Option ℕ → Run F W (Unit {0})
  resume_at all none = skip
  resume_at all (some i) = do with_frame (λ f. record f { jumping = false }); r.resume all (i + 1)

  abbrev pub block_next : Stmts → Run F W (Unit {0}) → Vm F W → Run F W (Unit {0})
  block_next all next vm =
      if is_returning vm || is_pending vm.pending_state
      then skip
      else if is_jumping vm
      then resume_at all (find_label_in all (jump_target vm.frames))
      else next

  -- The statements `rest` of the block `all`.
  unfoldable pub run_block : Stmts → Stmts → Run F W (Unit {0})
  unfolding find_label_in with_frame
  run_block all Stmts.nil = skip
  run_block all (Stmts.cons s rest) = do
    r.exec s
    vm ← gets (λ vm. vm)
    block_next all (run_block all rest) vm

  abbrev pub unless_stops : Run F W (Unit {0}) → Run F W (Unit {0})
  unless_stops next = do vm ← gets (λ vm. vm); if stops vm then skip else next

  unfoldable pub while_loop : Expr → Stmt → ℕ → Run F W (Unit {0})
  unfolding sv_truthy
  while_loop c b zero = skip
  while_loop c b (suc n) = do
    t ← test c
    if t then (do r.exec b; unless_stops (while_loop c b n)) else skip

  unfoldable pub do_loop : Stmt → Expr → ℕ → Run F W (Unit {0})
  unfolding sv_truthy
  do_loop b c zero = skip
  do_loop b c (suc n) = do r.exec b; unless_stops (do t ← test c; if t then do_loop b c n else skip)

  -- No condition is a true one.
  abbrev pub for_test : Expr → Run F W Bool
  for_test Expr.null = pure true
  for_test (expr ty lv n) = test (expr ty lv n)

  unfoldable pub for_loop : Expr → Exprs → Stmt → ℕ → Run F W (Unit {0})
  unfolding sv_truthy eval_all
  for_loop c post b zero = skip
  for_loop c post b (suc n) = do
    t ← for_test c
    if t then (do r.exec b; unless_stops (do eval_all post; for_loop c post b n)) else skip

  abbrev pub return_value : ℕ → Expr → Run F W (Unit {0})
  return_value has e =
      if has == 0 then skip else do v ← r.eval e; with_frame (λ f. record f { ret_val = v })

  -- Without a frame a `return` evaluates nothing.
  abbrev pub exec_return : ℕ → Expr → List (Frame F) → Run F W (Unit {0})
  exec_return has e [] = skip
  exec_return has e (_ ∷ _) = do return_value has e; with_frame (λ f. record f { returning = true })

  unfoldable pub exec_form : Form → Run F W (Unit {0})
  unfolding sv_truthy coerce frame_define frame_enter frame_leave with_frame eval_all run_block
      while_loop do_loop for_loop find_state prog_str
  exec_form (expr_s e) = do _ ← r.eval e; skip
  exec_form (decl t name init) = do
    v ← r.eval init
    with_frame (λ f. frame_define f name (declared D t v))
  exec_form (block ss) = do with_frame frame_enter; run_block ss ss; with_frame frame_leave
  exec_form (if_s c t e) = do b ← test c; if b then r.exec t else r.exec e
  exec_form (while_s c b) = while_loop c b safety
  exec_form (do_s b c) = do_loop b c safety
  exec_form (for_s init c post b) = do
    with_frame frame_enter
    eval_all init
    for_loop c post b safety
    with_frame frame_leave
  exec_form (ret has e) = do vm ← gets (λ vm. vm); exec_return has e vm.frames
  exec_form (jump name) = with_frame (λ f. record f { jumping = true; jump_name_idx = name })
  exec_form (label name) = skip
  exec_form (state_chg name) = modify (request_state (find_state p (prog_str p name) p.states))
  exec_form empty = skip

  unfoldable pub exec_with : Stmt → Run F W (Unit {0})
  unfolding exec_form
  exec_with Stmt.null = skip
  exec_with (stmt line f) = do vm ← gets (λ vm. vm); if unwinding vm then skip else exec_form f
