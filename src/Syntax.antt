-- ===== src/Syntax.antt =====
-- The typed AST of src/slemu.h, with the ExprKind and StmtKind tags of src/loader.c as constructors.
-- `null` is the NULL pointer. A name is an index into the string pool; a float literal is kept as
-- the 64 bits that the file holds.
use sakura_slemu.Base.{ℕ, List, Str, ℤ, get_or, []}

mutual
  pub data Expr : Type 0 where
    null : Expr
    -- type, is_lvalue
    expr : ℕ → ℕ → Node → Expr

  pub data Node : Type 0 where
    int_lit : ℤ → Node
    float_lit : ℕ → Node
    string_lit : ℕ → Node
    ident : ℕ → Node
    vector_lit : Expr → Expr → Expr → Node
    rot_lit : Expr → Expr → Expr → Expr → Node
    list_lit : Exprs → Node
    call : ℕ → Exprs → Node
    -- base, axis
    member : Expr → ℕ → Node
    -- to, inner
    cast : ℕ → Expr → Node
    unary : ℕ → Expr → Node
    postfix : ℕ → Expr → Node
    binary : ℕ → Expr → Expr → Node
    assign : ℕ → Expr → Expr → Node

  pub data Exprs : Type 0 where
    nil : Exprs
    cons : Expr → Exprs → Exprs

mutual
  pub data Stmt : Type 0 where
    null : Stmt
    -- line
    stmt : ℕ → Form → Stmt

  pub data Form : Type 0 where
    expr_s : Expr → Form
    -- t, name_idx, init
    decl : ℕ → ℕ → Expr → Form
    block : Stmts → Form
    if_s : Expr → Stmt → Stmt → Form
    while_s : Expr → Stmt → Form
    do_s : Stmt → Expr → Form
    -- init, cond, post, body
    for_s : Exprs → Expr → Exprs → Stmt → Form
    -- has_value, expr
    ret : ℕ → Expr → Form
    jump : ℕ → Form
    label : ℕ → Form
    state_chg : ℕ → Form
    empty : Form

  pub data Stmts : Type 0 where
    nil : Stmts
    cons : Stmt → Stmts → Stmts

pub record Param : Type 0 where
  pub type : ℕ
  pub name_idx : ℕ

pub record GlobalVar : Type 0 where
  pub type : ℕ
  pub name_idx : ℕ
  pub init : Expr

pub record FuncDecl : Type 0 where
  pub name_idx : ℕ
  pub line : ℕ
  pub ret : ℕ
  pub has_return_type : ℕ
  pub params : List Param
  pub body : Stmt

pub record EventDecl : Type 0 where
  pub name_idx : ℕ
  pub line : ℕ
  pub params : List Param
  pub body : Stmt

pub record StateDecl : Type 0 where
  pub name_idx : ℕ
  pub line : ℕ
  pub is_default : ℕ
  pub events : List EventDecl

pub record Program : Type 0 where
  pub strings : List Str
  pub globals : List GlobalVar
  pub funcs : List FuncDecl
  pub states : List StateDecl
  pub flags : ℕ

-- An index out of range reads as "".
unfoldable pub prog_str : Program → ℕ → Str
prog_str p idx = get_or p.strings idx []
