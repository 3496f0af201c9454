-- ===== src/Loader/WriteProgram.antt =====
-- A writer of whole .lslbc files in the format that program_load of src/loader.c reads, as a
-- specification, and the programs that the format can hold.
use sakura_slemu.Base.{ℕ, ◌+◌, ◌^◌, ◌<◌, List, [], ◌∷◌, Str, All, length}
use sakura_slemu.Syntax.{Param, GlobalVar, FuncDecl, EventDecl, StateDecl, Program}
use sakura_slemu.Loader.Writer.{
  put_u32, put_line, put_opt_expr, put_stmt, ExprFits, StmtFits, LineFits,
}

module _ {A : Type 0} (put : A → List ℕ → List ℕ) where
  abbrev pub put_list : List A → List ℕ → List ℕ
  put_list [] rest = rest
  put_list (x ∷ xs) rest = put x (put_list xs rest)

abbrev pub put_bytes : List ℕ → List ℕ → List ℕ
put_bytes [] rest = rest
put_bytes (b ∷ bs) rest = b ∷ put_bytes bs rest

abbrev pub put_string : Str → List ℕ → List ℕ
put_string s rest = put_u32 (length s) (put_bytes s rest)

abbrev pub put_param : Param → List ℕ → List ℕ
put_param p rest = p.type ∷ put_u32 p.name_idx rest

abbrev pub put_params : List Param → List ℕ → List ℕ
put_params ps rest = length ps ∷ put_list put_param ps rest

abbrev pub put_global : GlobalVar → List ℕ → List ℕ
put_global g rest = g.type ∷ put_u32 g.name_idx (put_opt_expr g.init rest)

module _ (ver : ℕ) where
  abbrev pub put_func : FuncDecl → List ℕ → List ℕ
  put_func f rest = put_u32 f.name_idx (
      put_line ver f.line (
        f.ret
        ∷ f.has_return_type
        ∷ length f.params
        ∷ put_list put_param f.params (put_stmt ver f.body rest)))

  abbrev pub put_event : EventDecl → List ℕ → List ℕ
  put_event e rest = put_u32 e.name_idx (
      put_line ver e.line
        (length e.params ∷ put_list put_param e.params (put_stmt ver e.body rest)))

  abbrev pub put_state : StateDecl → List ℕ → List ℕ
  put_state s rest = put_u32 s.name_idx (
      put_line ver s.line
        (s.is_default ∷ put_u32 (length s.events) (put_list put_event s.events rest)))

  abbrev pub put_states : List StateDecl → List ℕ
  put_states ss = put_u32 (length ss) (put_list put_state ss [])

  abbrev pub put_funcs : List FuncDecl → List ℕ → List ℕ
  put_funcs fs rest = put_u32 (length fs) (put_list put_func fs rest)

abbrev pub put_globals : List GlobalVar → List ℕ → List ℕ
put_globals gs rest = put_u32 (length gs) (put_list put_global gs rest)

abbrev pub put_strings : List Str → List ℕ → List ℕ
put_strings ss rest = put_u32 (length ss) (put_list put_string ss rest)

abbrev pub put_body : ℕ → Program → List ℕ
put_body ver p =
    put_strings p.strings (put_globals p.globals (put_funcs ver p.funcs (put_states ver p.states)))

-- The whole file of a program, in format version `ver`.
unfoldable pub put_program : ℕ → Program → List ℕ
put_program ver p =
    put_bytes (0x53 ∷ 0x4c ∷ 0x42 ∷ 0x43 ∷ 0 ∷ []) (put_u32 ver (put_u32 p.flags (put_body ver p)))

-- The strings hold no NUL, and every number fits its field.
abbrev pub StringFits : Str → Type 0
StringFits s = (length s + 1 < 2 ^ 32) × All (λ b. 0 < b) s

abbrev pub ParamFits : Param → Type 0
ParamFits p = p.name_idx < 2 ^ 32

abbrev pub GlobalFits : GlobalVar → Type 0
GlobalFits g = (g.name_idx < 2 ^ 32) × ExprFits g.init

module _ (ver : ℕ) where
  abbrev pub FuncFits : FuncDecl → Type 0
  FuncFits f =
      (f.name_idx < 2 ^ 32) × LineFits ver f.line × All ParamFits f.params × StmtFits ver f.body

  abbrev pub EventFits : EventDecl → Type 0
  EventFits e =
      (e.name_idx < 2 ^ 32) × LineFits ver e.line × All ParamFits e.params × StmtFits ver e.body

  abbrev pub StateFits : StateDecl → Type 0
  StateFits s =
      (s.name_idx < 2 ^ 32)
      × LineFits ver s.line
      × (length s.events < 2 ^ 32)
      × All EventFits s.events

  pub record ProgramFits (p : Program) : Type 0 where
    pub flags : p.flags < 2 ^ 32
    pub n_strings : length p.strings < 2 ^ 32
    pub n_globals : length p.globals < 2 ^ 32
    pub n_funcs : length p.funcs < 2 ^ 32
    pub n_states : length p.states < 2 ^ 32
    pub strings : All StringFits p.strings
    pub globals : All GlobalFits p.globals
    pub funcs : All FuncFits p.funcs
    pub states : All StateFits p.states
