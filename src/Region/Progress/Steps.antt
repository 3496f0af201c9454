-- ===== src/Region/Progress/Steps.antt =====
-- src/region.c: what running a script may do to the counters and the queues of the region.
use sakura_slemu.Base.{
  ℕ, ◌≤◌, ◌≡◌, ◌≢◌, refl, ◌∙◌, ap, subst, Bool, true, false, Option, none, some, List, [], ◌∷◌,
  get_elem?, get_elem?-modify_at_ne, arith,
}
use sakura_slemu.Vm.Outcome.{Outcome, done, fault, no_fuel, Action, after}
use sakura_slemu.Vm.World.{Moves}
use sakura_slemu.Region.State.{Event, Script, Region}
use sakura_slemu.Region.Dispatch.{World, at_script, with_script}

module _ {F : Type 0} where
  abbrev pub nonempty : List (Event F) → Bool
  nonempty [] = false
  nonempty (_ ∷ _) = true

  abbrev pub has_event : Option (Script F) → Bool
  has_event none = false
  has_event (some s) = nonempty s.evq

  -- The script at the place has an event to handle.
  abbrev pub Waiting : ℕ → Region F → Type 0
  Waiting i r = has_event (get_elem? r.scripts i) ≡ true

  -- The limit is the same, the count has not gone down, and the other scripts that had events have
  -- some still.
  pub record StepsBut (self : ℕ) (r r' : Region F) : Type 0 where
    pub limit : r'.max_steps ≡ r.max_steps
    pub steps : r.n_steps ≤ r'.n_steps
    pub waiting : (i : ℕ) → i ≢ self → Waiting i r → Waiting i r'

  pub StepsBut-refl : (self : ℕ) (r : Region F) → StepsBut self r r
  StepsBut-refl self r = record { limit = refl; steps = omega arith; waiting = λ i ne h. h }

  pub StepsBut-trans :
      (self : ℕ) (a b c : Region F) → StepsBut self a b → StepsBut self b c → StepsBut self a c
  StepsBut-trans self a b c h k = record {
    limit = k.limit ∙ h.limit;
    steps = omega (arith, h.steps, k.steps);
    waiting = λ i ne w. k.waiting i ne (h.waiting i ne w);
  }

  -- The relation that is asked of built-ins.
  abbrev pub counting : Moves (World F)
  counting = record {
    rel = λ w w'. (w'.self ≡ w.self) × StepsBut w.self w.region w'.region;
    rel_refl = λ w. (refl, StepsBut-refl w.self w.region);
    rel_trans = λ a b c (e, h) (e', k). (
      e' ∙ e,
      StepsBut-trans a.self a.region b.region c.region h
          (subst (λ i. StepsBut i b.region c.region) e k),
    );
  }

  pub at_script-StepsBut :
      (i : ℕ) (f : Script F → Script F) (r : Region F) → StepsBut i r (at_script i f r)
  at_script-StepsBut i f r = record {
    limit = refl;
    steps = omega arith;
    waiting = λ j ne w. ap has_event (get_elem?-modify_at_ne i j f r.scripts ne) ∙ w;
  }

-- What holds of the result and of the state, if there are any.
abbrev pub After : {S A : Type 0} → (A → S → Type 0) → Outcome S A → Type 0
After P (done a s) = P a s
After P fault = Unit
After P no_fuel = Unit

pub bind-After :
    {S A B : Type 0} (P : A → S → Type 0) (Q : B → S → Type 0) (o : Outcome S A)
    (f : A → Action S B)
    → After P o
    → ((a : A) (s : S) → P a s → After Q (f a s))
    → After Q (after o f)
bind-After P Q (done a s) f h k = k a s h
bind-After P Q fault f h k = tt
bind-After P Q no_fuel f h k = tt

module _ {F A : Type 0} where
  found-After :
      (P : A → Region F → Type 0) (o : Option (Script F)) (f : Script F → Action (Region F) A)
      (r : Region F)
      → ((s : Script F) → o ≡ some s → After P (f s r))
      → After P (elim o [ none ↦ fault | some s ↦ f s r ])
  found-After P none f r h = tt
  found-After P (some s) f r h = h s refl

  pub with_script-After :
      (P : A → Region F → Type 0) (i : ℕ) (f : Script F → Action (Region F) A) (r : Region F)
      → ((s : Script F) → get_elem? r.scripts i ≡ some s → After P (f s r))
      → After P (with_script i f r)
  with_script-After P i f r h = found-After P (get_elem? r.scripts i) f r h
