-- ===== src/Loader/Size.antt =====
-- A node is written on at least as many bytes as it is high, so the bytes of a file are fuel
-- enough for what was written to it.
use sakura_slemu.Base.{
  ℕ, zero, suc, ◌+◌, ◌≤◌, List, ◌∷◌, arith, length, false, leb, ◌==◌, Bool-cases, inl, inr, ◌≡◌,
}
use sakura_slemu.Syntax.{
  Expr, expr, Node, vector_lit, rot_lit, list_lit, call, member, cast, unary, postfix, binary,
  assign, Exprs, Stmt, stmt, Form, expr_s, decl, block, if_s, while_s, do_s, for_s, ret, Stmts,
}
use sakura_slemu.Loader.Writer.{
  put_expr, put_node, put_exprs, put_opt_expr, put_line, put_stmt, put_form, put_opt_stmt,
  put_stmts, count_exprs, height, node_height, exprs_height, stmt_height, form_height, stmts_height,
}

suc-ne_zero : (n : ℕ) → (suc n == 0) ≡ false
suc-ne_zero n = ground arith

-- The bytes that `put` adds before `rest` are at least `h`.
abbrev AtLeast : ℕ → List ℕ → (List ℕ → List ℕ) → Type 0
AtLeast h rest put = h + length rest ≤ length (put rest)

mutual
  unfolding put_expr height

  height-le : (e : Expr) (rest : List ℕ) → AtLeast (height e) rest (put_expr e)
  height-le Expr.null rest = omega arith
  height-le (expr ty lv n) rest = omega (arith, node_height-le n rest)

  node_height-le : (n : Node) (rest : List ℕ) → AtLeast (node_height n) rest (put_node n)
  node_height-le (vector_lit x y z) rest = omega (
    arith,
    height-le x (put_expr y (put_expr z rest)),
    height-le y (put_expr z rest),
    height-le z rest,
  )
  node_height-le (rot_lit x y z w) rest = omega (
    arith,
    height-le x (put_expr y (put_expr z (put_expr w rest))),
    height-le y (put_expr z (put_expr w rest)),
    height-le z (put_expr w rest),
    height-le w rest,
  )
  node_height-le (list_lit es) rest = omega (arith, exprs_height-le es rest)
  node_height-le (call f es) rest = omega (arith, exprs_height-le es rest)
  node_height-le (member b m) rest = omega (arith, height-le b (m ∷ rest))
  node_height-le (cast t e) rest = omega (arith, height-le e rest)
  node_height-le (unary t e) rest = omega (arith, height-le e rest)
  node_height-le (postfix t e) rest = omega (arith, height-le e rest)
  node_height-le (binary t l r) rest =
      omega (arith, height-le l (put_expr r rest), height-le r rest)
  node_height-le (assign t l r) rest =
      omega (arith, height-le l (put_expr r rest), height-le r rest)
  node_height-le _ rest = omega arith

  exprs_height-le : (es : Exprs) (rest : List ℕ) → AtLeast (exprs_height es) rest (put_exprs es)
  exprs_height-le Exprs.nil rest = omega arith
  exprs_height-le (Exprs.cons e es) rest =
      omega (arith, height-le e (put_exprs es rest), exprs_height-le es rest)

pub opt_height-le : (e : Expr) (rest : List ℕ) → AtLeast (height e) rest (put_opt_expr e)
unfolding height put_expr
opt_height-le Expr.null rest = omega arith
opt_height-le (expr ty lv n) rest = omega (arith, height-le (expr ty lv n) rest)

pub line-le : (ver line : ℕ) (rest : List ℕ) → AtLeast 0 rest (put_line ver line)
line-le ver line rest = elim (Bool-cases (leb 2 ver)) [
  | inl e ↦ rw e (omega arith)
  | inr e ↦ rw e (omega arith)
]

module _ (ver : ℕ) where
  mutual
    unfolding put_stmt stmt_height height put_expr

    pub stmt_height-le : (s : Stmt) (rest : List ℕ) → AtLeast (stmt_height s) rest (put_stmt ver s)
    stmt_height-le Stmt.null rest = omega arith
    stmt_height-le (stmt line f) rest =
        omega (arith, line-le ver line (put_form ver f rest), form_height-le f rest)

    form_height-le : (f : Form) (rest : List ℕ) → AtLeast (form_height f) rest (put_form ver f)
    form_height-le (expr_s e) rest = omega (arith, height-le e rest)
    form_height-le (decl t i e) rest = omega (arith, opt_height-le e rest)
    form_height-le (block ss) rest = omega (arith, stmts_height-le ss rest)
    form_height-le (if_s c t f) rest = omega (
      arith,
      height-le c (put_stmt ver t (put_opt_stmt ver f rest)),
      stmt_height-le t (put_opt_stmt ver f rest),
      opt_stmt_height-le f rest,
    )
    form_height-le (while_s c b) rest =
        omega (arith, height-le c (put_stmt ver b rest), stmt_height-le b rest)
    form_height-le (do_s b c) rest =
        omega (arith, stmt_height-le b (put_expr c rest), height-le c rest)
    form_height-le (for_s is c ps b) rest =
        let body : List ℕ = put_stmt ver b rest in
        let post : List ℕ = put_exprs ps body in
        omega (
          arith,
          exprs_height-le is (put_opt_expr c (count_exprs ps ∷ post)),
          opt_height-le c (count_exprs ps ∷ post),
          exprs_height-le ps body,
          stmt_height-le b rest,
        )
    form_height-le (ret zero e) rest = omega arith
    form_height-le (ret (suc hv) e) rest = rw (suc-ne_zero hv) (omega (arith, height-le e rest))
    form_height-le _ rest = omega arith

    opt_stmt_height-le :
        (s : Stmt) (rest : List ℕ) → AtLeast (stmt_height s) rest (put_opt_stmt ver s)
    opt_stmt_height-le Stmt.null rest = omega arith
    opt_stmt_height-le (stmt line f) rest =
        omega (arith, line-le ver line (put_form ver f rest), form_height-le f rest)

    stmts_height-le :
        (ss : Stmts) (rest : List ℕ) → AtLeast (stmts_height ss) rest (put_stmts ver ss)
    stmts_height-le Stmts.nil rest = omega arith
    stmts_height-le (Stmts.cons s ss) rest =
        omega (arith, stmt_height-le s (put_stmts ver ss rest), stmts_height-le ss rest)
