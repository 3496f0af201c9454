-- ===== src/Region/Dispatch.antt =====
-- src/region.c: starting a script, and running one event of a script. A script runs in the world
-- that is the region and the script's place in it; its globals and pending_state are the
-- interpreter's while it runs.
use sakura_slemu.Base.{
  ℕ, suc, ◌+◌, Bool, true, false, Option, none, some, List, [], ◌∷◌, ◌++◌, Str, codes, str_eq, pos,
  get_elem?, set, modify_at, find, find_index, replicate, length, ◌==◌, not,
}
use sakura_slemu.Double.{Double}
use sakura_slemu.Syntax.{Expr, expr, GlobalVar, EventDecl, StateDecl, Program, prog_str}
use sakura_slemu.Value.{SValue, void, f_zero}
use sakura_slemu.Vm.Outcome.{
  Outcome, done, fault, no_fuel, Action, pure, faulted, modify, skip, ◌>>=◌, ◌>>◌,
}
use sakura_slemu.Vm.State.{Vm, Run}
use sakura_slemu.Vm.Eval.{Host}
use sakura_slemu.Vm.Exec.{zero_of}
use sakura_slemu.Vm.Machine.{vm_eval, vm_dispatch}
use sakura_slemu.Region.State.{Event, Script, Region}
use sakura_slemu.Region.Queue.{push_to}

pub record World (F : Type 0) : Type 0 where
  pub region : Region F
  pub self : ℕ

module _ {F : Type 0} where
  abbrev pub at_script : ℕ → (Script F → Script F) → Region F → Region F
  at_script i f r = record r { scripts = modify_at i f r.scripts }

  abbrev pub entered : ℕ → Script F → Region F → Vm F (World F)
  entered i s r = record {
    frames = [];
    globals = s.globals;
    pending_state = s.pending_state;
    world = record { region = r; self = i };
  }

  abbrev pub put_back : ℕ → Vm F (World F) → Region F
  put_back i vm =
      at_script i (λ s. record s { globals = vm.globals; pending_state = vm.pending_state })
        vm.world.region

  abbrev pub stored : {A : Type 0} → ℕ → Outcome (Vm F (World F)) A → Outcome (Region F) A
  stored i (done a vm) = done a (put_back i vm)
  stored i fault = fault
  stored i no_fuel = no_fuel

  -- An action of the interpreter on behalf of the script.
  abbrev pub run_in : {A : Type 0} → ℕ → Script F → Run F (World F) A → Action (Region F) A
  run_in i s m r = stored i (m (entered i s r))

  -- if a script has that place
  abbrev pub with_script : {A : Type 0} → ℕ → (Script F → Action (Region F) A) → Action (Region F) A
  with_script i f r = elim (get_elem? r.scripts i) [ none ↦ fault | some s ↦ f s r ]

-- Also region_load_script, for a file that program_load reads as `p`.
unfoldable pub region_load_script : {F : Type 0} → Double F → Program → Str → Region F → Region F
region_load_script D p uuid r = record r {
  scripts =
      r.scripts
      ++ (record {
        prog = p;
        link_num = pos (length r.scripts + 1);
        name = codes "Object";
        desc = [];
        uuid = uuid;
        cur_state = none;
        pending_state = none;
        globals = replicate (length p.globals) void;
        evq = [];
        timer_interval = f_zero D;
        timer_due = f_zero D;
        listens = [];
        perms = pos 0;
        perms_key = none;
        detected = [];
        hud_text = none;
      }
          ∷ []);
}

unfoldable pub find_event : Program → List EventDecl → Str → Option EventDecl
unfolding prog_str
find_event p es name = find (λ e. str_eq (prog_str p e.name_idx) name) es

abbrev pub default_state : List StateDecl → Option ℕ
default_state ss = find_index (λ s. not (s.is_default == 0)) ss

-- The default state, or else the state the script is in, or else the first.
abbrev pub start_state : Option ℕ → Option ℕ → List StateDecl → Option ℕ
start_state (some i) cur ss = some i
start_state none (some i) ss = some i
start_state none none [] = none
start_state none none (_ ∷ _) = some 0

module _ {F : Type 0} (D : Double F) (host : Host F (World F)) (fuel : ℕ) where
  abbrev pub set_global : ℕ → SValue F → Run F (World F) (Unit {0})
  set_global k v = modify (λ vm. record vm { globals = set vm.globals k v })

  abbrev pub init_global : Program → ℕ → ℕ → Expr → Run F (World F) (Unit {0})
  init_global p k ty Expr.null = set_global k (zero_of D ty)
  init_global p k ty (expr t lv n) = do v ← vm_eval D p host fuel (expr t lv n); set_global k v

  -- The globals from place `k` on.
  unfoldable pub init_globals : Program → ℕ → List GlobalVar → Run F (World F) (Unit {0})
  init_globals p k [] = skip
  init_globals p k (g ∷ gs) = do init_global p k g.type g.init; init_globals p (suc k) gs

  unfoldable pub init_script : ℕ → Action (Region F) (Unit {0})
  unfolding init_globals push_to
  init_script i = with_script i λ s. do
    run_in i s (init_globals s.prog 0 s.prog.globals)
    modify (
        at_script i λ t. record t {
          cur_state = start_state (default_state t.prog.states) t.cur_state t.prog.states;
        })
    modify (push_to i (codes "state_entry") [])

  abbrev pub run_handler :
      ℕ → Script F → Option EventDecl → List (SValue F) → Action (Region F) (Unit {0})
  run_handler i s none args = skip
  run_handler i s (some e) args = run_in i s (vm_dispatch D s.prog host fuel e args)

  -- The handler of an event in a state of the script. A state that is not there is out of bounds.
  abbrev pub handle_in :
      ℕ → Script F → Option StateDecl → Str → List (SValue F) → Action (Region F) (Unit {0})
  handle_in i s none name args = faulted
  handle_in i s (some st) name args = run_handler i s (find_event s.prog st.events name) args

  abbrev pub handle_at :
      ℕ → Script F → Option ℕ → Str → List (SValue F) → Action (Region F) (Unit {0})
  handle_at i s none name args = skip
  handle_at i s (some k) name args = handle_in i s (get_elem? s.prog.states k) name args

  unfoldable pub dispatch_event : ℕ → Event F → Action (Region F) (Unit {0})
  unfolding find_event vm_dispatch
  dispatch_event i ev = with_script i λ s. handle_at i s s.cur_state ev.name ev.args

  -- state_exit in the old state, in the new one already, with the queue empty; then state_entry.
  abbrev pub switch_to : ℕ → Script F → Option ℕ → Action (Region F) (Unit {0})
  switch_to i s none = skip
  switch_to i s (some k) = do
    modify (at_script i λ t. record t { cur_state = some k; pending_state = none; evq = [] })
    with_script i λ t. handle_at i t s.cur_state (codes "state_exit") []
    modify (push_to i (codes "state_entry") [])

  unfoldable pub change_state : ℕ → Action (Region F) (Unit {0})
  unfolding find_event vm_dispatch push_to
  change_state i = with_script i λ s. switch_to i s s.pending_state

  abbrev pub take_event : ℕ → List (Event F) → Action (Region F) Bool
  take_event i [] = pure false
  take_event i (ev ∷ rest) = do
    modify (at_script i λ s. record s { evq = rest })
    dispatch_event i ev
    modify (λ r. record r { n_steps = r.n_steps + 1 })
    change_state i
    pure true

  -- One event of a script, if it has one.
  unfoldable pub script_turn : ℕ → Action (Region F) Bool
  unfolding dispatch_event change_state
  script_turn i = with_script i λ s. take_event i s.evq
