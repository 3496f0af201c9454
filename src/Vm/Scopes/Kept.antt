-- ===== src/Vm/Scopes/Kept.antt =====
-- What running a statement of src/vm.c may do to the frames: it leaves the frames of the callers as
-- they are, and in its own frame it may change values and add bindings of the innermost scope.
use sakura_slemu.Base.{
  ℕ, zero, suc, ◌+◌, ◌-◌, ◌≤◌, ◌≡◌, refl, sym, ◌∙◌, subst, List, [], ◌∷◌, ltb, Bool, true, false,
  All, arith, if◌then◌else◌, All-map, ap,
}
use sakura_slemu.Value.{SValue}
use sakura_slemu.Vm.State.{
  LocalBinding, Frame, set_val, drop_deeper, frame_enter, frame_leave, on_top,
}

module _ {F : Type 0} where
  -- A binding without its value: the name and the depth of the scope.
  abbrev pub keys : List (LocalBinding F) → List (ℕ × ℕ)
  keys [] = []
  keys (b ∷ bs) = (b.name_idx, b.scope_depth) ∷ keys bs

-- The second list has bindings of depth `d` before those of the first.
pub data Grown (d : ℕ) (ks : List (ℕ × ℕ)) : List (ℕ × ℕ) → Type 0 where
  same : Grown d ks ks
  more : (name : ℕ) (ks' : List (ℕ × ℕ)) → Grown d ks ks' → Grown d ks ((name, d) ∷ ks')

pub Grown-trans :
    {d : ℕ} {ks ks' ks'' : List (ℕ × ℕ)} → Grown d ks ks' → Grown d ks' ks'' → Grown d ks ks''
Grown-trans g same = g
Grown-trans g (more name ks'' h) = more name ks'' (Grown-trans g h)

abbrev pub Within : ℕ → List (ℕ × ℕ) → Type 0
Within d ks = All (λ k. k.1 ≤ d) ks

pub Grown-Within : {d : ℕ} {ks ks' : List (ℕ × ℕ)} → Within d ks → Grown d ks ks' → Within d ks'
Grown-Within h same = h
Grown-Within h (more name ks' g) = (omega arith, Grown-Within h g)

module _ {F : Type 0} where
  -- No binding of the running frame is deeper than its scope.
  abbrev pub Scoped : List (Frame F) → Type 0
  Scoped [] = Unit
  Scoped (f ∷ fs) = Within f.scope_depth (keys f.locs)

  abbrev pub Kept : List (Frame F) → List (Frame F) → Type 0
  Kept [] [] = Unit
  Kept [] (_ ∷ _) = ⊥
  Kept (_ ∷ _) [] = ⊥
  Kept (f ∷ ps) (f' ∷ ps') =
      (f'.scope_depth ≡ f.scope_depth)
      × Grown f.scope_depth (keys f.locs) (keys f'.locs)
      × (ps' ≡ ps)

  pub Kept-refl : (fs : List (Frame F)) → Kept fs fs
  Kept-refl [] = tt
  Kept-refl (f ∷ fs) = (refl, same, refl)

  pub Kept-trans : (a b c : List (Frame F)) → Kept a b → Kept b c → Kept a c
  Kept-trans [] [] [] h k = tt
  Kept-trans [] [] (_ ∷ _) h k = k
  Kept-trans [] (_ ∷ _) c h k = elim h [ ]
  Kept-trans (_ ∷ _) [] c h k = elim h [ ]
  Kept-trans (_ ∷ _) (_ ∷ _) [] h k = k
  Kept-trans (f ∷ a) (g ∷ b) (x ∷ c) (d, h, e) (d', k, e') =
      (d' ∙ d, Grown-trans h (subst (λ n. Grown n (keys g.locs) (keys x.locs)) d k), e' ∙ e)

  pub Kept-Scoped : (a b : List (Frame F)) → Scoped a → Kept a b → Scoped b
  Kept-Scoped [] [] s h = tt
  Kept-Scoped [] (_ ∷ _) s h = elim h [ ]
  Kept-Scoped (_ ∷ _) [] s h = elim h [ ]
  Kept-Scoped (f ∷ a) (g ∷ b) s (d, h, e) =
      subst (λ n. Within n (keys g.locs)) (sym d) (Grown-Within s h)

  pub keys-set_val :
      (bs : List (LocalBinding F)) (i : ℕ) (v : SValue F) → keys (set_val bs i v) ≡ keys bs
  keys-set_val [] i v = refl
  keys-set_val (b ∷ bs) zero v = refl
  keys-set_val (b ∷ bs) (suc i) v =
      ap (λ ks. (b.name_idx, b.scope_depth) ∷ ks) (keys-set_val bs i v)

drop_keys : ℕ → List (ℕ × ℕ) → List (ℕ × ℕ)
drop_keys d [] = []
drop_keys d (k ∷ ks) = let rest = drop_keys d ks in if ltb d k.1 then rest else k ∷ ks

-- frame_leave drops the bindings of the scope that it leaves, and no others.
drop_keys-Within : (d : ℕ) (ks : List (ℕ × ℕ)) → Within d ks → drop_keys d ks ≡ ks
unfolding drop_keys
drop_keys-Within d [] h = refl
drop_keys-Within d (k ∷ ks) (le, h) = let e : ltb d k.1 ≡ false = ground arith in rw e refl

drop_keys-Grown :
    (d : ℕ) (ks ks' : List (ℕ × ℕ)) → Within d ks → Grown (d + 1) ks ks' → drop_keys d ks' ≡ ks
unfolding drop_keys
drop_keys-Grown d ks _ w same = drop_keys-Within d ks w
drop_keys-Grown d ks _ w (more name ks'' g) =
    let e : ltb d (d + 1) ≡ true = ground arith in rw e (drop_keys-Grown d ks ks'' w g)

module _ {F : Type 0} where
  keys-if :
      (b : Bool) (x y : List (LocalBinding F))
      → keys (if b then x else y) ≡ (if b then keys x else keys y)
  keys-if true x y = refl
  keys-if false x y = refl

  keys-drop_deeper :
      (d : ℕ) (bs : List (LocalBinding F)) → keys (drop_deeper d bs) ≡ drop_keys d (keys bs)
  unfolding drop_deeper drop_keys
  keys-drop_deeper d [] = refl
  keys-drop_deeper d (b ∷ bs) = rw (keys-if, keys-drop_deeper d bs) refl

  -- A block that is entered, run by a body that keeps to its scope, and left.
  abbrev pub SameKeys : List (Frame F) → List (Frame F) → Type 0
  SameKeys [] [] = Unit
  SameKeys [] (_ ∷ _) = ⊥
  SameKeys (_ ∷ _) [] = ⊥
  SameKeys (f ∷ ps) (f' ∷ ps') =
      (f'.scope_depth ≡ f.scope_depth) × (keys f'.locs ≡ keys f.locs) × (ps' ≡ ps)

  pub SameKeys-refl : (a : List (Frame F)) → SameKeys a a
  SameKeys-refl [] = tt
  SameKeys-refl (f ∷ fs) = (refl, refl, refl)

  pub SameKeys-Kept : (a b : List (Frame F)) → SameKeys a b → Kept a b
  SameKeys-Kept [] [] h = tt
  SameKeys-Kept [] (_ ∷ _) h = h
  SameKeys-Kept (_ ∷ _) [] h = h
  SameKeys-Kept (f ∷ a) (g ∷ b) (d, e, q) =
      (d, subst (λ ks. Grown f.scope_depth (keys f.locs) ks) (sym e) same, q)

  pub scope_left :
      (a b : List (Frame F))
      → Scoped a
      → Kept (on_top frame_enter a) b
      → SameKeys a (on_top frame_leave b)
  unfolding frame_enter frame_leave
  scope_left [] [] s h = tt
  scope_left [] (_ ∷ _) s h = h
  scope_left (_ ∷ _) [] s h = h
  scope_left (f ∷ a) (g ∷ b) s (d, h, q) =
      let e : g.scope_depth - 1 ≡ f.scope_depth = omega (arith, d) in
      (
        e,
        keys-drop_deeper (g.scope_depth - 1) g.locs
            ∙ subst (λ n. drop_keys n (keys g.locs) ≡ keys f.locs) (sym e)
                (drop_keys-Grown _ _ _ s h),
        q,
      )

  pub scope_entered : (a : List (Frame F)) → Scoped a → Scoped (on_top frame_enter a)
  unfolding frame_enter
  scope_entered [] h = tt
  scope_entered (f ∷ a) h = All-map (λ k le. omega arith) (keys f.locs) h
