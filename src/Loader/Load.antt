-- ===== src/Loader/Load.antt =====
-- src/loader.c: program_load, on the bytes of the file (read_file is a parameter: its result).
use sakura_slemu.Base.{
  ℕ, suc, ◌-◌, ◌^◌, List, [], ◌∷◌, Str, str_eq, length, ltb, ◌==◌, ◌||◌, if◌then◌else◌,
}
use sakura_slemu.Syntax.{Expr, Param, GlobalVar, FuncDecl, EventDecl, StateDecl, Program}
use sakura_slemu.Loader.Rdr.{Rd, Read, fault, pure, failed, ◌>>=◌, r_u8, r_u32, r_bytes, read_n}
use sakura_slemu.Loader.Nodes.{read_expr, read_stmt, read_if, read_line}

-- A pool string as C reads it: the bytes before the first NUL.
unfoldable pub c_str : List ℕ → Str
c_str [] = []
c_str (b ∷ bs) = if b == 0 then [] else b ∷ c_str bs

-- The buffer has `l + 1` bytes in 32-bit arithmetic: at the largest `l` it is one byte, and the
-- write of the NUL behind the string is out of its bounds.
unfoldable pub read_string : Rd Str
read_string = do
  l ← r_u32
  if l == 2 ^ 32 - 1 then (λ bs. fault) else do bs ← r_bytes l; pure (c_str bs)

unfoldable pub read_param : Rd Param
read_param = do t ← r_u8; i ← r_u32; pure (record { type = t; name_idx = i })

module _ (ver fuel : ℕ) where
  unfoldable pub read_global : Rd GlobalVar
  read_global = do
    t ← r_u8
    i ← r_u32
    hi ← r_u8
    e ← read_if Expr.null (read_expr fuel) hi
    pure (record { type = t; name_idx = i; init = e })

  unfoldable pub read_func : Rd FuncDecl
  read_func = do
    name ← r_u32
    ln ← read_line ver
    ret ← r_u8
    hr ← r_u8
    np ← r_u8
    ps ← read_n read_param np
    b ← read_stmt ver fuel
    pure (record {
      name_idx = name;
      line = ln;
      ret = ret;
      has_return_type = hr;
      params = ps;
      body = b;
    })

  unfoldable pub read_event : Rd EventDecl
  read_event = do
    en ← r_u32
    ln ← read_line ver
    np ← r_u8
    ps ← read_n read_param np
    b ← read_stmt ver fuel
    pure (record { name_idx = en; line = ln; params = ps; body = b })

  unfoldable pub read_state : Rd StateDecl
  read_state = do
    name ← r_u32
    ln ← read_line ver
    isd ← r_u8
    ne ← r_u32
    es ← read_n read_event ne
    pure (record { name_idx = name; line = ln; is_default = isd; events = es })

  unfoldable pub read_body : ℕ → Rd Program
  read_body flags = do
    n_strs ← r_u32
    strs ← read_n read_string n_strs
    n_g ← r_u32
    gs ← read_n read_global n_g
    n_f ← r_u32
    fs ← read_n read_func n_f
    n_s ← r_u32
    ss ← read_n read_state n_s
    pure (record { strings = strs; globals = gs; funcs = fs; states = ss; flags = flags })

abbrev pub magic : List ℕ
magic = 0x53 ∷ 0x4c ∷ 0x42 ∷ 0x43 ∷ 0 ∷ []

unfoldable pub read_versioned : ℕ → Rd Program
read_versioned fuel = do
  ver ← r_u32
  flags ← r_u32
  if ltb ver 1 || ltb 2 ver then failed else read_body ver fuel flags

unfoldable pub read_program : ℕ → Rd Program
read_program fuel = do m ← r_bytes 5; if str_eq m magic then read_versioned fuel else failed

-- The nesting of the file's nodes is less than the number of its bytes.
unfoldable pub program_load : List ℕ → Read Program
program_load buf = read_program (suc (length buf)) buf
