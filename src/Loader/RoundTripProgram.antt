-- ===== src/Loader/RoundTripProgram.antt =====
-- Loading the file that the writer makes of a program gives the program back.
use sakura_slemu.Base.{
  ℕ, ◌-◌, ◌^◌, ◌<◌, ◌≤◌, ◌≡◌, refl, List, [], ◌∷◌, Str, All, All-map, All-map2, length, arith, ◌==◌,
  false,
}
use sakura_slemu.Syntax.{Expr, expr, Param, GlobalVar, FuncDecl, EventDecl, StateDecl, Program}
use sakura_slemu.Loader.Rdr.{Rd, got, ◌>>=◌, r_u8, r_bytes, read_n}
use sakura_slemu.Loader.Nodes.{read_if, read_expr}
use sakura_slemu.Loader.Load.{
  c_str, read_string, read_param, read_global, read_func, read_event, read_state, read_body,
}
use sakura_slemu.Loader.Writer.{
  put_u32, put_line, put_opt_expr, put_stmt, height, stmt_height, ExprFits,
}
use sakura_slemu.Loader.WriteProgram.{
  put_list, put_bytes, put_string, put_param, put_global, put_func, put_event, put_state,
  put_states, put_funcs, put_globals, put_body, StringFits, ParamFits, GlobalFits, FuncFits,
  EventFits, StateFits, ProgramFits,
}
use sakura_slemu.Loader.RoundTrip.{r_u32-put, read_expr-put}
use sakura_slemu.Loader.RoundTripStmts.{read_line-put, read_stmt-put}

-- `m` reads back what `put` makes of `x`, whatever follows.
abbrev Reads : {A : Type 0} → Rd A → (A → List ℕ → List ℕ) → A → Type 0
Reads m put x = (rest : List ℕ) → m (put x rest) ≡ got x rest

read_n-put :
    {A : Type 0} (m : Rd A) (put : A → List ℕ → List ℕ) (xs : List A)
    → All (Reads m put) xs
    → (rest : List ℕ) → read_n m (length xs) (put_list put xs rest) ≡ got xs rest
unfolding read_n
read_n-put m put [] h rest = refl
read_n-put m put (x ∷ xs) (hx, h) rest = rw (hx (put_list put xs rest), read_n-put m put xs h rest)

pub r_bytes-put : (bs rest : List ℕ) → r_bytes (length bs) (put_bytes bs rest) ≡ got bs rest
unfolding r_bytes
r_bytes-put [] rest = refl
r_bytes-put (b ∷ bs) rest = rw (r_bytes-put bs rest)

pub c_str_lem : (s : Str) → All (λ b. 0 < b) s → c_str s ≡ s
unfolding c_str
c_str_lem [] h = refl
c_str_lem (b ∷ s) (p, h) = ground (arith, c_str_lem s h)

read_string-put : (s : Str) → StringFits s → Reads read_string put_string s
unfolding read_string
read_string-put s (h, z) rest =
    let e : (length s == 2 ^ 32 - 1) ≡ false = ground arith in
    rw (r_u32-put (length s) (put_bytes s rest) (omega arith), e, r_bytes-put s rest, c_str_lem s z)

read_param-put : (p : Param) → ParamFits p → Reads read_param put_param p
unfolding read_param r_u8
read_param-put p h rest = rw (r_u32-put p.name_idx rest h)

abbrev pub init_height : GlobalVar → ℕ
init_height g = height g.init

read_opt-put :
    {B : Type 0} (f : ℕ) (e : Expr) (rest : List ℕ) (k : Expr → Rd B)
    → ExprFits e
    → height e ≤ f
    → (r_u8 >>= λ hi. read_if Expr.null (read_expr f) hi >>= k) (put_opt_expr e rest) ≡ k e rest
unfolding r_u8
read_opt-put f Expr.null rest k h l = refl
read_opt-put f (expr ty lv n) rest k h l = rw (read_expr-put (expr ty lv n) f rest h l)

read_global-put :
    (ver f : ℕ) (g : GlobalVar)
    → GlobalFits g
    → init_height g ≤ f
    → Reads (read_global ver f) put_global g
unfolding read_global r_u8
read_global-put ver f g (hi, he) k rest =
    rw (r_u32-put g.name_idx (put_opt_expr g.init rest) hi) (read_opt-put f g.init rest _ he k)

module _ (ver fuel : ℕ) where
  abbrev pub func_height : FuncDecl → ℕ
  func_height f = stmt_height f.body

  abbrev pub event_height : EventDecl → ℕ
  event_height e = stmt_height e.body

  abbrev pub StateLow : StateDecl → Type 0
  StateLow s = All (λ e. event_height e ≤ fuel) s.events

  read_params-put :
      (ps : List Param) (rest : List ℕ)
      → All ParamFits ps
      → read_n read_param (length ps) (put_list put_param ps rest) ≡ got ps rest
  read_params-put ps rest h = read_n-put read_param put_param ps (All-map read_param-put ps h) rest

  read_func-put :
      (f : FuncDecl)
      → FuncFits ver f
      → func_height f ≤ fuel
      → Reads (read_func ver fuel) (put_func ver) f
  unfolding read_func r_u8
  read_func-put f (hn, hl, hp, hb) k rest =
      let body : List ℕ = put_stmt ver f.body rest in
      let ps : List ℕ = length f.params ∷ put_list put_param f.params body in
      rw (
        r_u32-put f.name_idx (put_line ver f.line (f.ret ∷ f.has_return_type ∷ ps)) hn,
        read_line-put ver f.line (f.ret ∷ f.has_return_type ∷ ps) hl,
        read_params-put f.params body hp,
        read_stmt-put ver f.body fuel rest hb k,
      )

  read_event-put :
      (e : EventDecl)
      → EventFits ver e
      → event_height e ≤ fuel
      → Reads (read_event ver fuel) (put_event ver) e
  unfolding read_event r_u8
  read_event-put e (hn, hl, hp, hb) k rest =
      let body : List ℕ = put_stmt ver e.body rest in
      let ps : List ℕ = length e.params ∷ put_list put_param e.params body in
      rw (
        r_u32-put e.name_idx (put_line ver e.line ps) hn,
        read_line-put ver e.line ps hl,
        read_params-put e.params body hp,
        read_stmt-put ver e.body fuel rest hb k,
      )

  read_state-put :
      (s : StateDecl) → StateFits ver s → StateLow s → Reads (read_state ver fuel) (put_state ver) s
  unfolding read_state r_u8
  read_state-put s (hn, hl, hc, hs) k rest =
      let es : List ℕ = put_list (put_event ver) s.events rest in
      let all : All (Reads (read_event ver fuel) (put_event ver)) s.events =
        All-map2 read_event-put s.events hs k in
      rw (
        r_u32-put s.name_idx (put_line ver s.line (s.is_default ∷ put_u32 (length s.events) es)) hn,
        read_line-put ver s.line (s.is_default ∷ put_u32 (length s.events) es) hl,
        r_u32-put (length s.events) es hc,
        read_n-put (read_event ver fuel) (put_event ver) s.events all rest,
      )

-- Every body of the program nests less than the fuel.
pub record Low (ver fuel : ℕ) (p : Program) : Type 0 where
  pub globals : All (λ g. init_height g ≤ fuel) p.globals
  pub funcs : All (λ f. func_height ver fuel f ≤ fuel) p.funcs
  pub states : All (StateLow ver fuel) p.states

pub read_body-put :
    (ver fuel : ℕ) (p : Program)
    → ProgramFits ver p
    → Low ver fuel p
    → read_body ver fuel p.flags (put_body ver p) ≡ got p []
unfolding read_body
read_body-put ver fuel p h l =
    let ss : List ℕ = put_list (put_state ver) p.states [] in
    let fs : List ℕ = put_list (put_func ver) p.funcs (put_states ver p.states) in
    let gs : List ℕ =
      put_list put_global p.globals (put_funcs ver p.funcs (put_states ver p.states)) in
    let rest : List ℕ = put_globals p.globals (put_funcs ver p.funcs (put_states ver p.states)) in
    rw (
      r_u32-put (length p.strings) (put_list put_string p.strings rest) h.n_strings,
      read_n-put read_string put_string p.strings (All-map read_string-put p.strings h.strings)
          rest,
      r_u32-put (length p.globals) gs h.n_globals,
      read_n-put (read_global ver fuel) put_global p.globals
          (All-map2 (read_global-put ver fuel) p.globals h.globals l.globals)
          (put_funcs ver p.funcs (put_states ver p.states)),
      r_u32-put (length p.funcs) fs h.n_funcs,
      read_n-put (read_func ver fuel) (put_func ver) p.funcs
          (All-map2 (read_func-put ver fuel) p.funcs h.funcs l.funcs) (put_states ver p.states),
      r_u32-put (length p.states) ss h.n_states,
      read_n-put (read_state ver fuel) (put_state ver) p.states
          (All-map2 (read_state-put ver fuel) p.states h.states l.states) [],
    )
