-- ===== src/Examples/Programs.antt =====
-- A small script: integer count = 3; default { state_entry() { count = 7 / 2; } }
use sakura_slemu.Base.{[], ◌∷◌, codes, pos}
use sakura_slemu.Syntax.{
  Expr, expr, int_lit, ident, binary, assign, Stmt, stmt, expr_s, decl, block, Stmts, EventDecl,
  Program,
}

abbrev pub divide : Expr
divide = expr 1 0 (binary 45 (expr 1 0 (int_lit (pos 7))) (expr 1 0 (int_lit (pos 2))))

abbrev pub assign_count : Expr
assign_count = expr 1 0 (assign 36 (expr 1 1 (ident 0)) divide)

abbrev pub entry_body : Stmt
entry_body = stmt 4 (block (Stmts.cons (stmt 5 (expr_s assign_count)) Stmts.nil))

abbrev pub entry : EventDecl
entry = record { name_idx = 2; line = 3; params = []; body = entry_body }

abbrev pub counter : Program
counter = record {
  strings = codes "count" ∷ codes "default" ∷ codes "state_entry" ∷ [];
  globals = record { type = 1; name_idx = 0; init = expr 1 0 (int_lit (pos 3)) } ∷ [];
  funcs = [];
  states = record { name_idx = 1; line = 2; is_default = 1; events = entry ∷ [] } ∷ [];
  flags = 0;
}

-- { integer count = 7 / 2; }
abbrev pub scoped_block : Stmts
scoped_block = Stmts.cons (stmt 6 (decl 1 0 divide)) Stmts.nil
