-- ===== src/Loader/RoundTrip.antt =====
-- Reading what the writer puts gives the node back.
use sakura_slemu.Base.{
  ℕ, zero, suc, ◌^◌, ◌<◌, ◌≤◌, ◌≡◌, refl, List, [], ◌∷◌, ℤ, pos, negsuc, IsI64, word, signed, two64,
  arith, ap, ◌==◌, false,
}
use sakura_slemu.Syntax.{
  Expr, expr, Node, int_lit, float_lit, string_lit, ident, vector_lit, rot_lit, list_lit, call,
  member, cast, unary, postfix, binary, assign, Exprs,
}
use sakura_slemu.Loader.Rdr.{got, r_u8, r_u32, r_u64, r_i64, read_n}
use sakura_slemu.Loader.Nodes.{exprs, read_node, read_expr, read_expr_with}
use sakura_slemu.Loader.Writer.{
  put_u32, put_u64, put_i64, put_expr, put_node, put_exprs, count_exprs, ExprFits, NodeFits,
  ExprsFit, height, node_height, exprs_height, node_tag,
}

pub r_u32-put : (n : ℕ) (rest : List ℕ) → n < 2 ^ 32 → r_u32 (put_u32 n rest) ≡ got n rest
unfolding r_u32
r_u32-put n rest h = ap (λ m. got m rest) (omega arith)

pub r_u64-put : (n : ℕ) (rest : List ℕ) → n < 2 ^ 64 → r_u64 (put_u64 n rest) ≡ got n rest
unfolding r_u64
r_u64-put n rest h = ap (λ m. got m rest) (omega arith)

signed-word : (v : ℤ) → IsI64 v → signed two64 (word two64 v) ≡ v
signed-word (pos n) h = ground arith
signed-word (negsuc n) h = ground arith

word-lt : (v : ℤ) → word two64 v < 2 ^ 64
word-lt (pos n) = omega arith
word-lt (negsuc n) = omega arith

pub r_i64-put : (v : ℤ) (rest : List ℕ) → IsI64 v → r_i64 (put_i64 v rest) ≡ got v rest
unfolding r_i64
r_i64-put v rest h =
    rw (r_u64-put (word two64 v) rest (word-lt v)) (ap (λ w. got w rest) (signed-word v h))

-- No tag is the mark of a NULL pointer.
node_tag-ne : (n : Node) → (node_tag n == 0xff) ≡ false
node_tag-ne (int_lit v) = refl
node_tag-ne _ = refl

mutual
  unfolding put_expr read_expr read_expr_with read_node r_u8 read_n ExprFits height

  pub read_expr-put :
      (e : Expr) (f : ℕ) (rest : List ℕ)
      → ExprFits e
      → height e ≤ f
      → read_expr f (put_expr e rest) ≡ got e rest
  read_expr-put Expr.null zero rest h k = absurd (omega arith)
  read_expr-put (expr ty lv n) zero rest h k = absurd (omega arith)
  read_expr-put Expr.null (suc f) rest h k = refl
  read_expr-put (expr ty lv n) (suc f) rest h k =
      rw (node_tag-ne n, read_node-put n f rest h (omega arith))

  read_node-put :
      (n : Node) (f : ℕ) (rest : List ℕ)
      → NodeFits n
      → node_height n ≤ f
      → read_node (read_expr f) (node_tag n) (put_node n rest) ≡ got n rest
  read_node-put (int_lit v) f rest h k = rw (r_i64-put v rest h)
  read_node-put (float_lit v) f rest h k = rw (r_u64-put v rest h)
  read_node-put (string_lit i) f rest h k = rw (r_u32-put i rest h)
  read_node-put (ident i) f rest h k = rw (r_u32-put i rest h)
  read_node-put (vector_lit x y z) f rest (hx, hy, hz) k = rw (
    read_expr-put x f (put_expr y (put_expr z rest)) hx (omega arith),
    read_expr-put y f (put_expr z rest) hy (omega arith),
    read_expr-put z f rest hz (omega arith),
  )
  read_node-put (rot_lit x y z w) f rest (hx, hy, hz, hw) k = rw (
    read_expr-put x f (put_expr y (put_expr z (put_expr w rest))) hx (omega arith),
    read_expr-put y f (put_expr z (put_expr w rest)) hy (omega arith),
    read_expr-put z f (put_expr w rest) hz (omega arith),
    read_expr-put w f rest hw (omega arith),
  )
  read_node-put (list_lit es) f rest (hn, hs) k =
      let (l, eq, e) = read_exprs-put es f rest hs k in
      rw (r_u32-put (count_exprs es) (put_exprs es rest) hn, eq) (ap (λ x. got (list_lit x) rest) e)
  read_node-put (call g es) f rest (hg, hn, hs) k =
      let (l, eq, e) = read_exprs-put es f rest hs k in
      rw
        (
          r_u32-put g (put_u32 (count_exprs es) (put_exprs es rest)) hg,
          r_u32-put (count_exprs es) (put_exprs es rest) hn,
          eq,
        )
        (ap (λ x. got (call g x) rest) e)
  read_node-put (member b m) f rest h k = rw (read_expr-put b f (m ∷ rest) h k)
  read_node-put (cast t e) f rest h k = rw (read_expr-put e f rest h k)
  read_node-put (unary t e) f rest h k = rw (read_expr-put e f rest h k)
  read_node-put (postfix t e) f rest h k = rw (read_expr-put e f rest h k)
  read_node-put (binary t l r) f rest (hl, hr) k = rw (
    read_expr-put l f (put_expr r rest) hl (omega arith),
    read_expr-put r f rest hr (omega arith),
  )
  read_node-put (assign t l r) f rest (hl, hr) k = rw (
    read_expr-put l f (put_expr r rest) hl (omega arith),
    read_expr-put r f rest hr (omega arith),
  )

  pub read_exprs-put :
      (es : Exprs) (f : ℕ) (rest : List ℕ)
      → ExprsFit es
      → exprs_height es ≤ f
      → (l : List Expr) × (read_n (read_expr f) (count_exprs es) (put_exprs es rest) ≡ got l rest)
        × (exprs l ≡ es)
  read_exprs-put Exprs.nil f rest h k = ([], refl, refl)
  read_exprs-put (Exprs.cons e es) f rest (he, hs) k =
      let (l, eq, p) = read_exprs-put es f rest hs (omega arith) in
      (e ∷ l, rw (read_expr-put e f (put_exprs es rest) he (omega arith), eq), ap (Exprs.cons e) p)

abbrev sample : Expr
sample = expr 1 0 (
    binary 42 (expr 1 0 (int_lit (negsuc 4)))
      (expr 7 0 (list_lit (Exprs.cons (expr 3 0 (string_lit 9)) (Exprs.cons Expr.null Exprs.nil)))))

read_runs : read_expr 9 (put_expr sample (7 ∷ [])) ≡ got sample (7 ∷ [])
unfolding read_expr read_expr_with read_node r_u8 r_u32 r_i64 r_u64 read_n put_expr
read_runs = refl
