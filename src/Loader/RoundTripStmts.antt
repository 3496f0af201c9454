-- ===== src/Loader/RoundTripStmts.antt =====
-- Reading what the writer puts gives the statement back.
use sakura_slemu.Base.{
  ℕ, zero, suc, ◌≤◌, ◌≡◌, refl, false, List, [], ◌∷◌, arith, ap, ap₂, sym, ◌==◌, leb, Bool-cases,
  inl, inr,
}
use sakura_slemu.Syntax.{
  Expr, expr, Stmt, stmt, Form, expr_s, decl, block, if_s, while_s, do_s, for_s, ret, jump, label,
  state_chg, empty, Stmts,
}
use sakura_slemu.Loader.Rdr.{got, r_u8, read_n}
use sakura_slemu.Loader.Nodes.{stmts, read_expr, read_form, read_stmt, read_stmt_with, read_line}
use sakura_slemu.Loader.Writer.{
  put_expr, put_exprs, put_line, put_stmt, put_form, put_stmts, count_exprs, count_stmts, StmtFits,
  FormFits, StmtsFit, LineFits, stmt_height, form_height, stmts_height, form_tag,
}
use sakura_slemu.Loader.RoundTrip.{r_u32-put, read_expr-put, read_exprs-put}

form_tag-ne : (f : Form) → (form_tag f == 0xff) ≡ false
form_tag-ne (expr_s v) = refl
form_tag-ne _ = refl

suc-ne_zero : (n : ℕ) → (suc n == 0) ≡ false
suc-ne_zero n = ground arith

pub read_line-put :
    (ver line : ℕ) (rest : List ℕ)
    → LineFits ver line
    → read_line ver (put_line ver line rest) ≡ got line rest
read_line-put ver line rest h = elim (Bool-cases (leb 2 ver)) [
  | inl e ↦ rw e (r_u32-put line rest (rw e at h))
  | inr e ↦ rw e (ap (λ l. got l rest) (omega (arith, rw e at h)))
]

module _ (ver : ℕ) where
  mutual
    unfolding put_stmt read_stmt read_stmt_with read_form r_u8 read_n StmtFits stmt_height

    pub read_stmt-put :
        (s : Stmt) (f : ℕ) (rest : List ℕ)
        → StmtFits ver s
        → stmt_height s ≤ f
        → read_stmt ver f (put_stmt ver s rest) ≡ got s rest
    read_stmt-put Stmt.null zero rest h k = absurd (omega arith)
    read_stmt-put (stmt line m) zero rest h k = absurd (omega arith)
    read_stmt-put Stmt.null (suc f) rest h k = refl
    read_stmt-put (stmt line m) (suc f) rest (hl, hm) k = rw (
      form_tag-ne m,
      read_line-put ver line (put_form ver m rest) hl,
      read_form-put m f rest hm (omega arith),
    )

    read_form-put :
        (m : Form) (f : ℕ) (rest : List ℕ)
        → FormFits ver m
        → form_height m ≤ f
        → read_form (read_expr f) (read_stmt ver f) (form_tag m) (put_form ver m rest) ≡ got m rest
    read_form-put (expr_s e) f rest h k = rw (read_expr-put e f rest h k)
    read_form-put (decl t i Expr.null) f rest (hi, he) k = rw (r_u32-put i (0 ∷ rest) hi)
    read_form-put (decl t i (expr ty lv n)) f rest (hi, he) k = rw (
      r_u32-put i (1 ∷ put_expr (expr ty lv n) rest) hi,
      read_expr-put (expr ty lv n) f rest he k,
    )
    read_form-put (block ss) f rest (hn, hs) k =
        let (l, eq, e) = read_stmts-put ss f rest hs k in
        rw (r_u32-put (count_stmts ss) (put_stmts ver ss rest) hn, eq)
          (ap (λ x. got (block x) rest) e)
    read_form-put (if_s c t Stmt.null) f rest (hc, ht, hf) k = rw (
      read_expr-put c f (put_stmt ver t (0 ∷ rest)) hc (omega arith),
      read_stmt-put t f (0 ∷ rest) ht (omega arith),
    )
    read_form-put (if_s c t (stmt line m)) f rest (hc, ht, hf) k = rw (
      read_expr-put c f (put_stmt ver t (1 ∷ put_stmt ver (stmt line m) rest)) hc (omega arith),
      read_stmt-put t f (1 ∷ put_stmt ver (stmt line m) rest) ht (omega arith),
      read_stmt-put (stmt line m) f rest hf (omega arith),
    )
    read_form-put (while_s c b) f rest (hc, hb) k = rw (
      read_expr-put c f (put_stmt ver b rest) hc (omega arith),
      read_stmt-put b f rest hb (omega arith),
    )
    read_form-put (do_s b c) f rest (hb, hc) k = rw (
      read_stmt-put b f (put_expr c rest) hb (omega arith),
      read_expr-put c f rest hc (omega arith),
    )
    read_form-put (for_s is Expr.null ps b) f rest (hi, hc, hp, hb) k =
        let tail : List ℕ = put_exprs ps (put_stmt ver b rest) in
        let (l, eq, e) = read_exprs-put is f (0 ∷ count_exprs ps ∷ tail) hi (omega arith) in
        let (m, eq', e') = read_exprs-put ps f (put_stmt ver b rest) hp (omega arith) in
        rw (eq, eq', read_stmt-put b f rest hb (omega arith))
          (ap₂ (λ x y. got (for_s x Expr.null y b) rest) e e')
    read_form-put (for_s is (expr ty lv n) ps b) f rest (hi, hc, hp, hb) k =
        let c : Expr = expr ty lv n in
        let tail : List ℕ = count_exprs ps ∷ put_exprs ps (put_stmt ver b rest) in
        let (l, eq, e) = read_exprs-put is f (1 ∷ put_expr c tail) hi (omega arith) in
        let (m, eq', e') = read_exprs-put ps f (put_stmt ver b rest) hp (omega arith) in
        rw
          (
            eq,
            read_expr-put c f tail hc (omega arith),
            eq',
            read_stmt-put b f rest hb (omega arith),
          )
          (ap₂ (λ x y. got (for_s x c y b) rest) e e')
    read_form-put (ret zero e) f rest (he, inl p) k = absurd (omega arith)
    read_form-put (ret zero e) f rest (he, inr p) k = ap (λ x. got (ret zero x) rest) (sym p)
    read_form-put (ret (suc hv) e) f rest (he, hz) k =
        rw (suc-ne_zero hv, read_expr-put e f rest he k)
    read_form-put (jump i) f rest h k = rw (r_u32-put i rest h)
    read_form-put (label i) f rest h k = rw (r_u32-put i rest h)
    read_form-put (state_chg i) f rest h k = rw (r_u32-put i rest h)
    read_form-put empty f rest h k = refl

    read_stmts-put :
        (ss : Stmts) (f : ℕ) (rest : List ℕ)
        → StmtsFit ver ss
        → stmts_height ss ≤ f
        → (l : List Stmt) × (read_n (read_stmt ver f) (count_stmts ss) (put_stmts ver ss rest)
            ≡ got l rest)
          × (stmts l ≡ ss)
    read_stmts-put Stmts.nil f rest h k = ([], refl, refl)
    read_stmts-put (Stmts.cons s ss) f rest (he, hs) k =
        let (l, eq, p) = read_stmts-put ss f rest hs (omega arith) in
        (
          s ∷ l,
          rw (read_stmt-put s f (put_stmts ver ss rest) he (omega arith), eq),
          ap (Stmts.cons s) p,
        )
