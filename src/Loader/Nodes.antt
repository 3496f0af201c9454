-- ===== src/Loader/Nodes.antt =====
-- src/loader.c: read_expr and read_stmt. `ver` is g_format_version. A nested read goes through the
-- argument `sub`, and `fuel` bounds the nesting: every nested read has consumed a byte, so the
-- number of bytes is enough (`Loader.Fuel`).
use sakura_slemu.Base.{ℕ, zero, suc, List, [], ◌∷◌, leb, ◌==◌, if◌then◌else◌}
use sakura_slemu.Syntax.{
  Expr, expr, Node, int_lit, float_lit, string_lit, ident, vector_lit, rot_lit, list_lit, call,
  member, cast, unary, postfix, binary, assign, Exprs, Stmt, stmt, Form, expr_s, decl, block, if_s,
  while_s, do_s, for_s, ret, jump, label, state_chg, empty, Stmts,
}
use sakura_slemu.Loader.Rdr.{Rd, no_fuel, pure, failed, ◌>>=◌, r_u8, r_u32, r_u64, r_i64, read_n}

abbrev pub exprs : List Expr → Exprs
exprs [] = Exprs.nil
exprs (e ∷ es) = Exprs.cons e (exprs es)

abbrev pub stmts : List Stmt → Stmts
stmts [] = Stmts.nil
stmts (s ∷ ss) = Stmts.cons s (stmts ss)

abbrev pub read_op1 : (ℕ → Expr → Node) → Rd Expr → Rd Node
read_op1 c sub = do op ← r_u8; e ← sub; pure (c op e)

abbrev pub read_op2 : (ℕ → Expr → Expr → Node) → Rd Expr → Rd Node
read_op2 c sub = do op ← r_u8; l ← sub; r ← sub; pure (c op l r)

-- The switch of read_expr over the tag.
unfoldable pub read_node : Rd Expr → ℕ → Rd Node
read_node sub tag =
    if tag == 0
    then (do v ← r_i64; pure (int_lit v))
    else if tag == 1
    then (do v ← r_u64; pure (float_lit v))
    else if tag == 2
    then (do i ← r_u32; pure (string_lit i))
    else if tag == 3
    then (do i ← r_u32; pure (ident i))
    else if tag == 4
    then (do x ← sub; y ← sub; z ← sub; pure (vector_lit x y z))
    else if tag == 5
    then (do x ← sub; y ← sub; z ← sub; w ← sub; pure (rot_lit x y z w))
    else if tag == 6
    then (do n ← r_u32; es ← read_n sub n; pure (list_lit (exprs es)))
    else if tag == 7
    then (do f ← r_u32; n ← r_u32; es ← read_n sub n; pure (call f (exprs es)))
    else if tag == 8
    then (do b ← sub; m ← r_u8; pure (member b m))
    else if tag == 9
    then read_op1 cast sub
    else if tag == 10
    then read_op1 unary sub
    else if tag == 11
    then read_op1 postfix sub
    else if tag == 12
    then read_op2 binary sub
    else if tag == 13
    then read_op2 assign sub
    else failed

unfoldable pub read_expr_with : Rd Expr → Rd Expr
unfolding read_node
read_expr_with sub = do
  tag ← r_u8
  if tag == 0xff
      then pure Expr.null
      else do ty ← r_u8; lv ← r_u8; n ← read_node sub tag; pure (expr ty lv n)

unfoldable pub read_expr : ℕ → Rd Expr
unfolding read_expr_with
read_expr zero = λ bs. no_fuel
read_expr (suc fuel) = read_expr_with (read_expr fuel)

-- hi ? read_expr(r) : NULL
abbrev pub read_if : {A : Type 0} → A → Rd A → ℕ → Rd A
read_if d m flag = if flag == 0 then pure d else m

-- The switch of read_stmt over the tag.
unfoldable pub read_form : Rd Expr → Rd Stmt → ℕ → Rd Form
read_form e s tag =
    if tag == 0
    then (do x ← e; pure (expr_s x))
    else if tag == 1
    then (do t ← r_u8; i ← r_u32; hi ← r_u8; x ← read_if Expr.null e hi; pure (decl t i x))
    else if tag == 2
    then (do n ← r_u32; ss ← read_n s n; pure (block (stmts ss)))
    else if tag == 3
    then (do c ← e; t ← s; he ← r_u8; f ← read_if Stmt.null s he; pure (if_s c t f))
    else if tag == 4
    then (do c ← e; b ← s; pure (while_s c b))
    else if tag == 5
    then (do b ← s; c ← e; pure (do_s b c))
    else if tag == 6
    then (do
      ni ← r_u8
      is ← read_n e ni
      hc ← r_u8
      c ← read_if Expr.null e hc
      np ← r_u8
      ps ← read_n e np
      b ← s
      pure (for_s (exprs is) c (exprs ps) b))
    else if tag == 7
    then (do hv ← r_u8; x ← read_if Expr.null e hv; pure (ret hv x))
    else if tag == 8
    then (do i ← r_u32; pure (jump i))
    else if tag == 9
    then (do i ← r_u32; pure (label i))
    else if tag == 10
    then (do i ← r_u32; pure (state_chg i))
    else if tag == 11
    then pure empty
    else failed

-- The source line stands in the file from version 2 on.
abbrev pub read_line : ℕ → Rd ℕ
read_line ver = if leb 2 ver then r_u32 else pure 0

unfoldable pub read_stmt_with : ℕ → Rd Expr → Rd Stmt → Rd Stmt
unfolding read_form
read_stmt_with ver e s = do
  tag ← r_u8
  if tag == 0xff
      then pure Stmt.null
      else do line ← read_line ver; f ← read_form e s tag; pure (stmt line f)

unfoldable pub read_stmt : ℕ → ℕ → Rd Stmt
unfolding read_expr read_stmt_with
read_stmt ver zero = λ bs. no_fuel
read_stmt ver (suc fuel) = read_stmt_with ver (read_expr fuel) (read_stmt ver fuel)
