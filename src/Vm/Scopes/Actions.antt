-- ===== src/Vm/Scopes/Actions.antt =====
-- The rules by which an action of src/vm.c is seen to keep the frames.
use sakura_slemu.Base.{
  ℕ, ◌≡◌, refl, Bool, true, false, Option, none, some, List, [], ◌∷◌, subst, sym, if◌then◌else◌,
}
use sakura_slemu.Value.{SValue}
use sakura_slemu.Vm.Outcome.{
  Outcome, done, fault, no_fuel, pure, faulted, exhausted, after, gets, modify, skip, ◌>>=◌, ◌>>◌,
}
use sakura_slemu.Vm.State.{
  LocalBinding, Frame, Vm, Run, Cell, local, global, with_frame, frame_push, frame_pop, read_cell,
  write_cell, frame_enter, frame_leave, on_top, set_val, tail_frames, frame_define,
}
use sakura_slemu.Vm.Scopes.Kept.{
  keys, Grown, same, more, Scoped, Kept, Kept-refl, Kept-trans, Kept-Scoped, keys-set_val, SameKeys,
  SameKeys-Kept, scope_left, scope_entered,
}
use sakura_slemu.Double.{Double}
use sakura_slemu.Syntax.{Program}
use sakura_slemu.Vm.Eval.{Host, ret_of, top_ret}
use sakura_slemu.Vm.Logic.Rules.{Logic, Fresh}

module _ {F W A : Type 0} where
  abbrev pub Post : List (Frame F) → Outcome (Vm F W) A → Type 0
  Post fs (done a vm) = Kept fs vm.frames
  Post fs fault = Unit
  Post fs no_fuel = Unit

  pub record Keeps (m : Run F W A) : Type 0 where
    pub at : (vm : Vm F W) → Scoped vm.frames → Post vm.frames (m vm)

  pub Keeps-pure : (a : A) → Keeps (pure {S = Vm F W} a)
  Keeps-pure a = record { at = λ vm s. Kept-refl _ }

  pub Keeps-faulted : Keeps (faulted {S = Vm F W} {A = A})
  Keeps-faulted = record { at = λ vm s. tt }

  pub Keeps-exhausted : Keeps (exhausted {S = Vm F W} {A = A})
  Keeps-exhausted = record { at = λ vm s. tt }

  pub Keeps-gets : (f : Vm F W → A) → Keeps (gets f)
  Keeps-gets f = record { at = λ vm s. Kept-refl _ }

  pub Keeps-if : (b : Bool) (m n : Run F W A) → Keeps m → Keeps n → Keeps (if b then m else n)
  Keeps-if true m n h k = h
  Keeps-if false m n h k = k

  Post-trans : (a b : List (Frame F)) (o : Outcome (Vm F W) A) → Kept a b → Post b o → Post a o
  Post-trans a b (done x vm) h k = Kept-trans a b vm.frames h k
  Post-trans a b fault h k = tt
  Post-trans a b no_fuel h k = tt

module _ {F W A B : Type 0} where
  after-Post :
      (fs : List (Frame F)) (o : Outcome (Vm F W) A) (f : A → Run F W B)
      → Scoped fs
      → Post fs o
      → ((a : A) → Keeps (f a))
      → Post fs (after o f)
  after-Post fs (done a vm) f s h hf =
      Post-trans fs vm.frames (f a vm) h ((hf a).at vm (Kept-Scoped fs vm.frames s h))
  after-Post fs fault f s h hf = tt
  after-Post fs no_fuel f s h hf = tt

  pub Keeps-bind :
      (m : Run F W A) (f : A → Run F W B) → Keeps m → ((a : A) → Keeps (f a)) → Keeps (m >>= f)
  Keeps-bind m f hm hf = record { at = λ vm s. after-Post vm.frames (m vm) f s (hm.at vm s) hf }

module _ {F : Type 0} where
  set_val-Kept :
      (fs : List (Frame F)) (i : ℕ) (v : SValue F)
      → Kept fs (on_top (λ f. record f { locs = set_val f.locs i v }) fs)
  set_val-Kept [] i v = tt
  set_val-Kept (f ∷ fs) i v =
      (refl, subst (Grown f.scope_depth (keys f.locs)) (sym (keys-set_val f.locs i v)) same, refl)

  on_top-Kept :
      (g : Frame F → Frame F) (fs : List (Frame F))
      → ((f : Frame F) → Kept (f ∷ []) (g f ∷ []))
      → Kept fs (on_top g fs)
  on_top-Kept g [] h = tt
  on_top-Kept g (f ∷ fs) h = let (d, k, _) = h f in (d, k, refl)

  pub tail-Kept : (f : Frame F) (fs gs : List (Frame F)) → Kept (f ∷ fs) gs → tail_frames gs ≡ fs
  tail-Kept f fs [] h = elim h [ ]
  tail-Kept f fs (g ∷ gs) (_, _, e) = e

module _ {F W : Type 0} where
  pub Keeps-skip : Keeps {F = F} {W = W} skip
  Keeps-skip = record { at = λ vm s. Kept-refl _ }

  pub Keeps-modify :
      (f : Vm F W → Vm F W) → ((vm : Vm F W) → (f vm).frames ≡ vm.frames) → Keeps (modify f)
  Keeps-modify f e = record {
    at = λ vm s. subst (Kept vm.frames) (sym (e vm)) (Kept-refl vm.frames);
  }

  local_read :
      (vm : Vm F W) (o : Option (LocalBinding F))
      → Post {A = SValue F} vm.frames (elim o [ none ↦ fault | some b ↦ done b.val vm ])
  local_read vm none = tt
  local_read vm (some b) = Kept-refl _

  global_read :
      (vm : Vm F W) (o : Option (SValue F))
      → Post {A = SValue F} vm.frames (elim o [ none ↦ fault | some v ↦ done v vm ])
  global_read vm none = tt
  global_read vm (some v) = Kept-refl _

  pub Keeps-read_cell : (c : Cell) → Keeps {F = F} {W = W} (read_cell c)
  unfolding read_cell
  Keeps-read_cell (local i) = record { at = λ vm s. local_read vm _ }
  Keeps-read_cell (global i) = record { at = λ vm s. global_read vm _ }

  pub Keeps-write_cell : (c : Cell) (v : SValue F) → Keeps {F = F} {W = W} (write_cell c v)
  unfolding write_cell
  Keeps-write_cell (local i) v = record { at = λ vm s. set_val-Kept vm.frames i v }
  Keeps-write_cell (global i) v = record { at = λ vm s. Kept-refl _ }

  -- A change of the running frame that leaves its bindings and its depth.
  pub Keeps-with_frame :
      (g : Frame F → Frame F)
      → ((f : Frame F) → Kept (f ∷ []) (g f ∷ []))
      → Keeps {F = F} {W = W} (with_frame g)
  unfolding with_frame
  Keeps-with_frame g h = record { at = λ vm s. on_top-Kept g vm.frames h }

  -- frame_enter, a body, frame_leave: the bindings are those before.
  abbrev pub Same : {A : Type 0} → List (Frame F) → Outcome (Vm F W) A → Type 0
  Same fs (done a vm) = SameKeys fs vm.frames
  Same fs fault = Unit
  Same fs no_fuel = Unit

  left_Same :
      {A : Type 0} (fs : List (Frame F)) (o : Outcome (Vm F W) A)
      → Scoped fs
      → Post (on_top frame_enter fs) o
      → Same fs (after o (λ _. with_frame frame_leave))
  unfolding with_frame
  left_Same fs (done a vm) s h = scope_left fs vm.frames s h
  left_Same fs fault s h = tt
  left_Same fs no_fuel s h = tt

  pub scope_Same :
      {A : Type 0} (m : Run F W A) (vm : Vm F W)
      → Keeps m
      → Scoped vm.frames
      → Same vm.frames ((with_frame frame_enter >> (m >> with_frame frame_leave)) vm)
  unfolding with_frame
  scope_Same m vm h s =
      left_Same vm.frames (m (record vm { frames = on_top frame_enter vm.frames })) s
        (h.at (record vm { frames = on_top frame_enter vm.frames }) (scope_entered vm.frames s))

  after_assoc :
      {A B C : Type 0} (o : Outcome (Vm F W) A) (n : Run F W B) (k : Run F W C)
      → after (after o (λ _. n)) (λ _. k) ≡ after o (λ _. n >> k)
  after_assoc (done a vm) n k = refl
  after_assoc fault n k = refl
  after_assoc no_fuel n k = refl

  pub scope_Same2 :
      {A B : Type 0} (m : Run F W A) (n : Run F W B) (vm : Vm F W)
      → Keeps m
      → Keeps n
      → Scoped vm.frames
      → Same vm.frames ((with_frame frame_enter >> (m >> (n >> with_frame frame_leave))) vm)
  unfolding with_frame
  scope_Same2 m n vm hm hn s =
      subst (Same vm.frames)
        (after_assoc (m (record vm { frames = on_top frame_enter vm.frames })) n
          (with_frame frame_leave))
        (scope_Same (m >> n) vm (Keeps-bind m _ hm λ _. hn) s)

  Same-Post : {A : Type 0} (fs : List (Frame F)) (o : Outcome (Vm F W) A) → Same fs o → Post fs o
  Same-Post fs (done a vm) h = SameKeys-Kept fs vm.frames h
  Same-Post fs fault h = tt
  Same-Post fs no_fuel h = tt

  pub Keeps-scope :
      {A : Type 0} (m : Run F W A)
      → Keeps m
      → Keeps (with_frame frame_enter >> (m >> with_frame frame_leave))
  Keeps-scope m h = record { at = λ vm s. Same-Post vm.frames _ (scope_Same m vm h s) }

  pub Keeps-scope2 :
      {A B : Type 0} (m : Run F W A) (n : Run F W B)
      → Keeps m
      → Keeps n
      → Keeps (with_frame frame_enter >> (m >> (n >> with_frame frame_leave)))
  Keeps-scope2 m n hm hn = record {
    at = λ vm s. Same-Post vm.frames _ (scope_Same2 m n vm hm hn s);
  }

  -- A frame that is pushed, run and popped: the frames are those before.
  abbrev pub Restores : {A : Type 0} → List (Frame F) → Outcome (Vm F W) A → Type 0
  Restores fs (done a vm) = vm.frames ≡ fs
  Restores fs fault = Unit
  Restores fs no_fuel = Unit

  popped :
      {A : Type 0} (f : Frame F) (fs : List (Frame F)) (o : Outcome (Vm F W) A)
      → Post (f ∷ fs) o
      → Restores fs (after o (λ _. frame_pop))
  unfolding frame_pop
  popped f fs (done a vm) h = tail-Kept f fs vm.frames h
  popped f fs fault h = tt
  popped f fs no_fuel h = tt

  pub call_Restores :
      (f : Frame F) (m : Run F W (Unit {0})) (vm : Vm F W)
      → Scoped (f ∷ [])
      → Keeps m
      → Restores vm.frames ((frame_push f >> (m >> frame_pop)) vm)
  unfolding frame_push
  call_Restores f m vm s h =
      popped f vm.frames (m (record vm { frames = f ∷ vm.frames }))
        (h.at (record vm { frames = f ∷ vm.frames }) s)

  returned :
      (D : Double F) (p : Program) (host : Host F W) (gs fs : List (Frame F)) (vm : Vm F W)
      → tail_frames vm.frames ≡ fs
      → Restores fs (after (ret_of D p host gs vm) (λ out. frame_pop >> pure out))
  unfolding frame_pop
  returned D p host [] fs vm e = tt
  returned D p host (g ∷ gs) fs vm e = e

  after_body :
      (D : Double F) (p : Program) (host : Host F W) (f : Frame F) (fs : List (Frame F))
      (o : Outcome (Vm F W) (Unit {0}))
      → Post (f ∷ fs) o
      → Restores fs (after o (λ _. top_ret D p host >>= λ out. frame_pop >> pure out))
  unfolding top_ret
  after_body D p host f fs (done a vm) h =
      returned D p host vm.frames fs vm (tail-Kept f fs vm.frames h)
  after_body D p host f fs fault h = tt
  after_body D p host f fs no_fuel h = tt

  Restores-Post :
      {A : Type 0} (fs : List (Frame F)) (o : Outcome (Vm F W) A) → Restores fs o → Post fs o
  Restores-Post fs (done a vm) e = subst (Kept fs) (sym e) (Kept-refl fs)
  Restores-Post fs fault e = tt
  Restores-Post fs no_fuel e = tt

  pub on_call :
      (D : Double F) (p : Program) (host : Host F W) (f : Frame F) (m : Run F W (Unit {0}))
      → Fresh f
      → Keeps m
      → Keeps (frame_push f >> (m >> (top_ret D p host >>= λ out. frame_pop >> pure out)))
  unfolding frame_push
  on_call D p host f m s h = record {
    at = λ vm _. Restores-Post vm.frames _ (
        after_body D p host f vm.frames (m (record vm { frames = f ∷ vm.frames }))
          (h.at (record vm { frames = f ∷ vm.frames }) s));
  }

  pub after-after :
      {A B C : Type 0} (o : Outcome (Vm F W) A) (f : A → Run F W B) (k : B → Run F W C)
      → after o (λ a. f a >>= k) ≡ after (after o f) k
  after-after (done a vm) f k = refl
  after-after fault f k = refl
  after-after no_fuel f k = refl

  pub on_flags :
      (g : Frame F → Frame F)
      → ((f : Frame F) → (g f).locs ≡ f.locs)
      → ((f : Frame F) → (g f).scope_depth ≡ f.scope_depth)
      → Keeps {F = F} {W = W} (with_frame g)
  on_flags g h k =
      Keeps-with_frame g
        λ f. (k f, subst (λ bs. Grown f.scope_depth (keys f.locs) (keys bs)) (sym (h f)) same, refl)

  pub on_define :
      (name : ℕ) (v : SValue F) → Keeps {F = F} {W = W} (with_frame (λ f. frame_define f name v))
  unfolding frame_define
  on_define name v = Keeps-with_frame _ λ f. (refl, more name (keys f.locs) same, refl)

  abbrev pub keeps_logic : Logic F W
  keeps_logic = record {
    holds = Keeps;
    on_pure = Keeps-pure;
    on_fault = Keeps-faulted;
    on_exhausted = Keeps-exhausted;
    on_gets = Keeps-gets;
    on_bind = Keeps-bind;
    on_assoc = λ m f k h. record {
      at = λ vm s. subst (Post vm.frames) (after-after (m vm) f k) (h.at vm s);
    };
    on_read = Keeps-read_cell;
    on_write = Keeps-write_cell;
    on_flags = on_flags;
    on_define = on_define;
    on_script = λ f e _. Keeps-modify f e;
    on_scope = Keeps-scope;
    on_scope2 = Keeps-scope2;
    on_call = on_call;
  }
