-- ===== src/Loader/Writer.antt =====
-- A writer of the node format that src/loader.c reads, as a specification: each function puts the
-- bytes of its argument before the bytes that follow.
use Prim.Native.Nat.{max}
use sakura_slemu.Base.{
  ℕ, zero, suc, ◌/◌, ◌%◌, ◌^◌, ◌<◌, ◌≡◌, List, ◌∷◌, ℤ, IsI64, word, two64, leb, ◌==◌, ◌⊎◌,
  if◌then◌else◌,
}
use sakura_slemu.Syntax.{
  Expr, expr, Node, int_lit, float_lit, string_lit, ident, vector_lit, rot_lit, list_lit, call,
  member, cast, unary, postfix, binary, assign, Exprs, Stmt, stmt, Form, expr_s, decl, block, if_s,
  while_s, do_s, for_s, ret, jump, label, state_chg, empty, Stmts,
}

abbrev pub put_u32 : ℕ → List ℕ → List ℕ
put_u32 n rest = n % 256 ∷ (n / 2 ^ 8 % 256) ∷ (n / 2 ^ 16 % 256) ∷ (n / 2 ^ 24 % 256) ∷ rest

abbrev pub put_u64 : ℕ → List ℕ → List ℕ
put_u64 n rest = put_u32 (n % 2 ^ 32) (put_u32 (n / 2 ^ 32) rest)

abbrev pub put_i64 : ℤ → List ℕ → List ℕ
put_i64 v rest = put_u64 (word two64 v) rest

abbrev pub count_exprs : Exprs → ℕ
count_exprs Exprs.nil = 0
count_exprs (Exprs.cons _ es) = suc (count_exprs es)

abbrev pub count_stmts : Stmts → ℕ
count_stmts Stmts.nil = 0
count_stmts (Stmts.cons _ ss) = suc (count_stmts ss)

abbrev pub node_tag : Node → ℕ
node_tag (int_lit _) = 0
node_tag (float_lit _) = 1
node_tag (string_lit _) = 2
node_tag (ident _) = 3
node_tag (vector_lit _ _ _) = 4
node_tag (rot_lit _ _ _ _) = 5
node_tag (list_lit _) = 6
node_tag (call _ _) = 7
node_tag (member _ _) = 8
node_tag (cast _ _) = 9
node_tag (unary _ _) = 10
node_tag (postfix _ _) = 11
node_tag (binary _ _ _) = 12
node_tag (assign _ _ _) = 13

unfoldable mutual
  pub put_expr : Expr → List ℕ → List ℕ
  put_expr Expr.null rest = 0xff ∷ rest
  put_expr (expr ty lv n) rest = node_tag n ∷ ty ∷ lv ∷ put_node n rest

  pub put_node : Node → List ℕ → List ℕ
  put_node (int_lit v) rest = put_i64 v rest
  put_node (float_lit v) rest = put_u64 v rest
  put_node (string_lit i) rest = put_u32 i rest
  put_node (ident i) rest = put_u32 i rest
  put_node (vector_lit x y z) rest = put_expr x (put_expr y (put_expr z rest))
  put_node (rot_lit x y z w) rest = put_expr x (put_expr y (put_expr z (put_expr w rest)))
  put_node (list_lit es) rest = put_u32 (count_exprs es) (put_exprs es rest)
  put_node (call f es) rest = put_u32 f (put_u32 (count_exprs es) (put_exprs es rest))
  put_node (member b m) rest = put_expr b (m ∷ rest)
  put_node (cast t e) rest = t ∷ put_expr e rest
  put_node (unary op e) rest = op ∷ put_expr e rest
  put_node (postfix op e) rest = op ∷ put_expr e rest
  put_node (binary op l r) rest = op ∷ put_expr l (put_expr r rest)
  put_node (assign op l r) rest = op ∷ put_expr l (put_expr r rest)

  pub put_exprs : Exprs → List ℕ → List ℕ
  put_exprs Exprs.nil rest = rest
  put_exprs (Exprs.cons e es) rest = put_expr e (put_exprs es rest)

-- A NULL init, cond or else branch is written as the flag 0 alone.
abbrev pub put_opt_expr : Expr → List ℕ → List ℕ
put_opt_expr Expr.null rest = 0 ∷ rest
put_opt_expr (expr ty lv n) rest = 1 ∷ put_expr (expr ty lv n) rest

abbrev pub put_line : ℕ → ℕ → List ℕ → List ℕ
put_line ver line rest = if leb 2 ver then put_u32 line rest else rest

abbrev pub form_tag : Form → ℕ
form_tag (expr_s _) = 0
form_tag (decl _ _ _) = 1
form_tag (block _) = 2
form_tag (if_s _ _ _) = 3
form_tag (while_s _ _) = 4
form_tag (do_s _ _) = 5
form_tag (for_s _ _ _ _) = 6
form_tag (ret _ _) = 7
form_tag (jump _) = 8
form_tag (label _) = 9
form_tag (state_chg _) = 10
form_tag empty = 11

module _ (ver : ℕ) where
  unfoldable mutual
    unfolding put_expr

    pub put_stmt : Stmt → List ℕ → List ℕ
    put_stmt Stmt.null rest = 0xff ∷ rest
    put_stmt (stmt line f) rest = form_tag f ∷ put_line ver line (put_form f rest)

    pub put_form : Form → List ℕ → List ℕ
    put_form (expr_s e) rest = put_expr e rest
    put_form (decl t i e) rest = t ∷ put_u32 i (put_opt_expr e rest)
    put_form (block ss) rest = put_u32 (count_stmts ss) (put_stmts ss rest)
    put_form (if_s c t f) rest = put_expr c (put_stmt t (put_opt_stmt f rest))
    put_form (while_s c b) rest = put_expr c (put_stmt b rest)
    put_form (do_s b c) rest = put_stmt b (put_expr c rest)
    put_form (for_s is c ps b) rest =
        count_exprs is
        ∷ put_exprs is (put_opt_expr c (count_exprs ps ∷ put_exprs ps (put_stmt b rest)))
    put_form (ret hv e) rest = hv ∷ (if hv == 0 then rest else put_expr e rest)
    put_form (jump i) rest = put_u32 i rest
    put_form (label i) rest = put_u32 i rest
    put_form (state_chg i) rest = put_u32 i rest
    put_form empty rest = rest

    pub put_opt_stmt : Stmt → List ℕ → List ℕ
    put_opt_stmt Stmt.null rest = 0 ∷ rest
    put_opt_stmt (stmt line f) rest = 1 ∷ form_tag f ∷ put_line ver line (put_form f rest)

    pub put_stmts : Stmts → List ℕ → List ℕ
    put_stmts Stmts.nil rest = rest
    put_stmts (Stmts.cons s ss) rest = put_stmt s (put_stmts ss rest)

-- The numbers fit their fields, and a value that a `return` lacks is NULL.
unfoldable mutual
  pub ExprFits : Expr → Type 0
  ExprFits Expr.null = Unit
  ExprFits (expr _ _ n) = NodeFits n

  pub NodeFits : Node → Type 0
  NodeFits (int_lit v) = IsI64 v
  NodeFits (float_lit v) = v < 2 ^ 64
  NodeFits (string_lit i) = i < 2 ^ 32
  NodeFits (ident i) = i < 2 ^ 32
  NodeFits (vector_lit x y z) = ExprFits x × ExprFits y × ExprFits z
  NodeFits (rot_lit x y z w) = ExprFits x × ExprFits y × ExprFits z × ExprFits w
  NodeFits (list_lit es) = (count_exprs es < 2 ^ 32) × ExprsFit es
  NodeFits (call f es) = (f < 2 ^ 32) × (count_exprs es < 2 ^ 32) × ExprsFit es
  NodeFits (member b _) = ExprFits b
  NodeFits (cast _ e) = ExprFits e
  NodeFits (unary _ e) = ExprFits e
  NodeFits (postfix _ e) = ExprFits e
  NodeFits (binary _ l r) = ExprFits l × ExprFits r
  NodeFits (assign _ l r) = ExprFits l × ExprFits r

  pub ExprsFit : Exprs → Type 0
  ExprsFit Exprs.nil = Unit
  ExprsFit (Exprs.cons e es) = ExprFits e × ExprsFit es

-- How deep reads nest.
unfoldable mutual
  pub height : Expr → ℕ
  height Expr.null = 1
  height (expr _ _ n) = suc (node_height n)

  pub node_height : Node → ℕ
  node_height (vector_lit x y z) = max (height x) (max (height y) (height z))
  node_height (rot_lit x y z w) = max (height x) (max (height y) (max (height z) (height w)))
  node_height (list_lit es) = exprs_height es
  node_height (call _ es) = exprs_height es
  node_height (member b _) = height b
  node_height (cast _ e) = height e
  node_height (unary _ e) = height e
  node_height (postfix _ e) = height e
  node_height (binary _ l r) = max (height l) (height r)
  node_height (assign _ l r) = max (height l) (height r)
  node_height _ = 0

  pub exprs_height : Exprs → ℕ
  exprs_height Exprs.nil = 0
  exprs_height (Exprs.cons e es) = max (height e) (exprs_height es)

unfoldable mutual
  unfolding height

  pub stmt_height : Stmt → ℕ
  stmt_height Stmt.null = 1
  stmt_height (stmt _ f) = suc (form_height f)

  pub form_height : Form → ℕ
  form_height (expr_s e) = height e
  form_height (decl _ _ e) = height e
  form_height (block ss) = stmts_height ss
  form_height (if_s c t f) = max (height c) (max (stmt_height t) (stmt_height f))
  form_height (while_s c b) = max (height c) (stmt_height b)
  form_height (do_s b c) = max (stmt_height b) (height c)
  form_height (for_s is c ps b) =
      max (exprs_height is) (max (height c) (max (exprs_height ps) (stmt_height b)))
  form_height (ret zero _) = 0
  form_height (ret (suc _) e) = height e
  form_height _ = 0

  pub stmts_height : Stmts → ℕ
  stmts_height Stmts.nil = 0
  stmts_height (Stmts.cons s ss) = max (stmt_height s) (stmts_height ss)

module _ (ver : ℕ) where
  -- A line is kept only by files of version 2.
  abbrev pub LineFits : ℕ → Type 0
  LineFits line = line < (if leb 2 ver then 2 ^ 32 else 1)

  unfoldable mutual
    unfolding ExprFits

    pub StmtFits : Stmt → Type 0
    StmtFits Stmt.null = Unit
    StmtFits (stmt line f) = LineFits line × FormFits f

    pub FormFits : Form → Type 0
    FormFits (expr_s e) = ExprFits e
    FormFits (decl _ i e) = (i < 2 ^ 32) × ExprFits e
    FormFits (block ss) = (count_stmts ss < 2 ^ 32) × StmtsFit ss
    FormFits (if_s c t f) = ExprFits c × StmtFits t × StmtFits f
    FormFits (while_s c b) = ExprFits c × StmtFits b
    FormFits (do_s b c) = StmtFits b × ExprFits c
    FormFits (for_s is c ps b) = ExprsFit is × ExprFits c × ExprsFit ps × StmtFits b
    FormFits (ret hv e) = ExprFits e × ((0 < hv) ⊎ (e ≡ Expr.null))
    FormFits (jump i) = i < 2 ^ 32
    FormFits (label i) = i < 2 ^ 32
    FormFits (state_chg i) = i < 2 ^ 32
    FormFits empty = Unit

    pub StmtsFit : Stmts → Type 0
    StmtsFit Stmts.nil = Unit
    StmtsFit (Stmts.cons s ss) = StmtFits s × StmtsFit ss
