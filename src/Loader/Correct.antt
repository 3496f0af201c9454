-- ===== src/Loader/Correct.antt =====
-- program_load of src/loader.c undoes the writer.
use sakura_slemu.Base.{
  ℕ, suc, ◌<◌, ◌≤◌, ◌≡◌, List, [], ◌∷◌, All, length, arith, ltb, ◌||◌, false, str_eq,
}
use sakura_slemu.Syntax.{Program, Param, Stmt}
use sakura_slemu.Loader.Rdr.{got, r_bytes}
use sakura_slemu.Loader.Load.{read_versioned, read_program, program_load}
use sakura_slemu.Loader.Writer.{put_u32, put_stmt, stmt_height}
use sakura_slemu.Loader.WriteProgram.{
  put_list, put_bytes, put_string, put_param, put_global, put_func, put_event, put_state,
  put_states, put_funcs, put_globals, put_body, put_program, ProgramFits,
}
use sakura_slemu.Loader.RoundTrip.{r_u32-put}
use sakura_slemu.Loader.RoundTripProgram.{Low, init_height, StateLow, read_body-put}
use sakura_slemu.Loader.Size.{opt_height-le, line-le, stmt_height-le}

module _ (n : ℕ) where
  -- `put` never shortens what follows, and what it writes on `n` bytes has `P`.
  abbrev Bounds : {A : Type 0} → (A → Type 0) → (A → List ℕ → List ℕ) → Type 0
  Bounds {A} P put = (x : A) (rest : List ℕ) → length (put x rest) ≤ n → P x × (length rest ≤ n)

  list-Bounds :
      {A : Type 0} (P : A → Type 0) (put : A → List ℕ → List ℕ)
      → Bounds P put
      → Bounds (All P) (put_list put)
  list-Bounds P put b [] rest h = (tt, h)
  list-Bounds P put b (x ∷ xs) rest h =
      let (px, hr) = b x (put_list put xs rest) h in
      let (pxs, hr') = list-Bounds P put b xs rest hr in ((px, pxs), hr')

  bytes-Bounds : Bounds (λ _. Unit {0}) put_bytes
  bytes-Bounds [] rest h = (tt, h)
  bytes-Bounds (b ∷ bs) rest h = bytes-Bounds bs rest (omega arith)

  string-Bounds : Bounds (λ _. Unit {0}) put_string
  string-Bounds s rest h = bytes-Bounds s rest (omega arith)

  param-Bounds : Bounds (λ _. Unit {0}) put_param
  param-Bounds p rest h = (tt, omega arith)

  global-Bounds : Bounds (λ g. init_height g ≤ n) put_global
  global-Bounds g rest h = omega (arith, opt_height-le g.init rest)

  module _ (ver : ℕ) where
    body_bounds :
        (ps : List Param) (b : Stmt) (rest : List ℕ)
        → length (put_list put_param ps (put_stmt ver b rest)) ≤ n
        → (stmt_height b ≤ n) × (length rest ≤ n)
    body_bounds ps b rest h = omega (
      arith,
      stmt_height-le ver b rest,
      (list-Bounds _ put_param param-Bounds ps (put_stmt ver b rest) h).1,
    )

    func-Bounds : Bounds (λ f. stmt_height f.body ≤ n) (put_func ver)
    func-Bounds f rest h =
        let ps : List ℕ = put_list put_param f.params (put_stmt ver f.body rest) in
        body_bounds f.params f.body rest
          (omega (arith, line-le ver f.line (f.ret ∷ f.has_return_type ∷ length f.params ∷ ps)))

    event-Bounds : Bounds (λ e. stmt_height e.body ≤ n) (put_event ver)
    event-Bounds e rest h =
        let ps : List ℕ = put_list put_param e.params (put_stmt ver e.body rest) in
        body_bounds e.params e.body rest (omega (arith, line-le ver e.line (length e.params ∷ ps)))

    state-Bounds : Bounds (StateLow ver n) (put_state ver)
    state-Bounds s rest h =
        let es : List ℕ = put_u32 (length s.events) (put_list (put_event ver) s.events rest) in
        list-Bounds _ (put_event ver) event-Bounds s.events rest
          (omega (arith, line-le ver s.line (s.is_default ∷ es)))

body-Low : (ver n : ℕ) (p : Program) → length (put_body ver p) ≤ n → Low ver n p
body-Low ver n p h =
    let ss : List ℕ = put_states ver p.states in
    let fs : List ℕ = put_funcs ver p.funcs ss in
    let (_, h1) =
      list-Bounds n _ put_string (string-Bounds n) p.strings (put_globals p.globals fs)
        (omega arith) in
    let (gs, h2) = list-Bounds n _ put_global (global-Bounds n) p.globals fs (omega arith) in
    let (low, h3) = list-Bounds n _ (put_func ver) (func-Bounds n ver) p.funcs ss (omega arith) in
    let (low', h4) =
      list-Bounds n _ (put_state ver) (state-Bounds n ver) p.states [] (omega arith) in
    record { globals = gs; funcs = low; states = low' }

-- program_load on the file written from a program that fits the format, in version 1 or 2, gives
-- that program.
pub program_load-put :
    (ver : ℕ) (p : Program)
    → 0 < ver
    → ver ≤ 2
    → ProgramFits ver p
    → program_load (put_program ver p) ≡ got p []
unfolding program_load read_program read_versioned put_program r_bytes str_eq
program_load-put ver p v1 v2 h =
    let file : List ℕ = put_program ver p in
    let e : (ltb ver 1 || ltb 2 ver) ≡ false = ground arith in
    rw
      (
        r_u32-put ver (put_u32 p.flags (put_body ver p)) (omega arith),
        r_u32-put p.flags (put_body ver p) h.flags,
        e,
      )
      (read_body-put ver (suc (length file)) p h (body-Low ver (suc (length file)) p (omega arith)))
