-- ===== src/Vm/State.antt =====
-- src/vm.c: the frame stack and the state of a running script.
use sakura_slemu.Base.{
  ℕ, zero, suc, ◌+◌, ◌-◌, Bool, false, Option, none, some, List, [], ◌∷◌, ltb, ◌==◌, if◌then◌else◌,
  get_elem?, set,
}
use sakura_slemu.Value.{SValue}
use sakura_slemu.Vm.Outcome.{done, fault, Action}

pub record LocalBinding (F : Type 0) : Type 0 where
  pub name_idx : ℕ
  pub val : SValue F
  pub scope_depth : ℕ

-- `locs` has the binding that was defined last in front.
pub record Frame (F : Type 0) : Type 0 where
  pub locs : List (LocalBinding F)
  pub scope_depth : ℕ
  pub returning : Bool
  pub ret_val : SValue F
  pub jumping : Bool
  pub jump_name_idx : ℕ

-- What the interpreter reads and writes: g_frame and its parents, and the script's globals and
-- pending_state (`none` is -1). `world` is the rest, which only built-ins see.
pub record Vm (F W : Type 0) : Type 0 where
  pub frames : List (Frame F)
  pub globals : List (SValue F)
  pub pending_state : Option ℕ
  pub world : W

module _ {F : Type 0} where
  abbrev pub frame_init : Frame F
  frame_init = record {
    locs = [];
    scope_depth = 0;
    returning = false;
    ret_val = SValue.void;
    jumping = false;
    jump_name_idx = 0;
  }

  unfoldable pub frame_define : Frame F → ℕ → SValue F → Frame F
  frame_define f name v = record f {
    locs = record { name_idx = name; val = v; scope_depth = f.scope_depth } ∷ f.locs;
  }

  -- The place in `locs` of the last binding of a name.
  unfoldable pub find_local : List (LocalBinding F) → ℕ → Option ℕ
  find_local [] name = none
  find_local (b ∷ bs) name =
      let rest = find_local bs name in
      if b.name_idx == name then some 0 else elim rest [ none ↦ none | some i ↦ some (suc i) ]

  unfoldable pub frame_find : Frame F → ℕ → Option ℕ
  unfolding find_local
  frame_find f name = find_local f.locs name

  unfoldable pub frame_enter : Frame F → Frame F
  frame_enter f = record f { scope_depth = f.scope_depth + 1 }

  unfoldable pub drop_deeper : ℕ → List (LocalBinding F) → List (LocalBinding F)
  drop_deeper d [] = []
  drop_deeper d (b ∷ bs) =
      let rest = drop_deeper d bs in if ltb d b.scope_depth then rest else b ∷ bs

  unfoldable pub frame_leave : Frame F → Frame F
  unfolding drop_deeper
  frame_leave f = record f {
    scope_depth = f.scope_depth - 1;
    locs = drop_deeper (f.scope_depth - 1) f.locs;
  }

abbrev pub Run : Type 0 → Type 0 → Type 0 → Type 0
Run F W = Action (Vm F W)

module _ {F : Type 0} where
  abbrev pub on_top : (Frame F → Frame F) → List (Frame F) → List (Frame F)
  on_top f [] = []
  on_top f (x ∷ xs) = f x ∷ xs

  abbrev pub top_flag : (Frame F → Bool) → List (Frame F) → Bool
  top_flag f [] = false
  top_flag f (x ∷ xs) = f x

  abbrev pub tail_frames : List (Frame F) → List (Frame F)
  tail_frames [] = []
  tail_frames (_ ∷ fs) = fs

  abbrev pub set_val : List (LocalBinding F) → ℕ → SValue F → List (LocalBinding F)
  set_val [] i v = []
  set_val (b ∷ bs) zero v = record b { val = v } ∷ bs
  set_val (b ∷ bs) (suc i) v = b ∷ set_val bs i v

  abbrev pub top_local : List (Frame F) → ℕ → Option (LocalBinding F)
  top_local [] i = none
  top_local (f ∷ fs) i = get_elem? f.locs i

-- The storage that an lvalue names: a binding of the running frame, or a global.
pub data Cell : Type 0 where
  local : ℕ → Cell
  global : ℕ → Cell

module _ {F W : Type 0} where
  -- if (g_frame) g_frame = f(g_frame)
  unfoldable pub with_frame : (Frame F → Frame F) → Run F W (Unit {0})
  with_frame f vm = done tt (record vm { frames = on_top f vm.frames })

  unfoldable pub frame_push : Frame F → Run F W (Unit {0})
  frame_push f vm = done tt (record vm { frames = f ∷ vm.frames })

  unfoldable pub frame_pop : Run F W (Unit {0})
  frame_pop vm = done tt (record vm { frames = tail_frames vm.frames })

  unfoldable pub read_cell : Cell → Run F W (SValue F)
  read_cell (local i) vm = elim (top_local vm.frames i) [ none ↦ fault | some b ↦ done b.val vm ]
  read_cell (global i) vm = elim (get_elem? vm.globals i) [ none ↦ fault | some v ↦ done v vm ]

  unfoldable pub write_cell : Cell → SValue F → Run F W (Unit {0})
  write_cell (local i) v vm =
      done tt
        (record vm { frames = on_top (λ f. record f { locs = set_val f.locs i v }) vm.frames })
  write_cell (global i) v vm = done tt (record vm { globals = set vm.globals i v })
