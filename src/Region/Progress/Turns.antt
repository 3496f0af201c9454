-- ===== src/Region/Progress/Turns.antt =====
-- src/region.c: a turn of a script counts a step if the script had an event, and so does a round.
use sakura_slemu.Base.{
  ℕ, zero, suc, ◌+◌, ◌≤◌, ◌<◌, ◌≡◌, ◌≢◌, refl, ◌∙◌, ap, subst, Bool, true, false, Option, none,
  some, List, [], ◌∷◌, Str, codes, get_elem?, arith, ◌||◌,
}
use sakura_slemu.Double.{Double}
use sakura_slemu.Syntax.{EventDecl, StateDecl}
use sakura_slemu.Value.{SValue}
use sakura_slemu.Vm.Outcome.{Outcome, done, fault, no_fuel, pure, modify, ◌>>=◌, ◌>>◌}
use sakura_slemu.Vm.State.{Vm}
use sakura_slemu.Vm.Eval.{Host}
use sakura_slemu.Vm.World.{Moved, HostMoves, dispatch-MovesBy}
use sakura_slemu.Region.State.{Event, Script, Region}
use sakura_slemu.Region.Queue.{push_to}
use sakura_slemu.Region.Dispatch.{
  World, at_script, entered, put_back, stored, with_script, run_handler, handle_in, handle_at,
  find_event, dispatch_event, switch_to, change_state, take_event, script_turn,
}
use sakura_slemu.Region.Loop.{drain_queues}
use sakura_slemu.Region.Progress.Steps.{
  nonempty, has_event, Waiting, StepsBut, StepsBut-refl, StepsBut-trans, counting,
  at_script-StepsBut, After, bind-After, with_script-After,
}

module _ {F : Type 0} where
  abbrev pub Only : {A : Type 0} → ℕ → Region F → A → Region F → Type 0
  Only i r a r' = StepsBut i r r'

  push_to-StepsBut :
      (i : ℕ) (name : Str) (args : List (SValue F)) (r : Region F)
      → StepsBut i r (push_to i name args r)
  unfolding push_to
  push_to-StepsBut i name args r = at_script-StepsBut i _ r

  stored-After :
      {A : Type 0} (i : ℕ) (r : Region F) (o : Outcome (Vm F (World F)) A)
      → Moved counting (record { region = r; self = i }) o
      → After (Only i r) (stored i o)
  stored-After i r (done a vm) (e, h) =
      StepsBut-trans i r vm.world.region (put_back i vm) h (at_script-StepsBut i _ vm.world.region)
  stored-After i r fault h = tt
  stored-After i r no_fuel h = tt

false_ne_true : false ≢ true
false_ne_true e = cc

join-counts :
    {P : Type 0} (b1 b2 : Bool) → (b1 ≡ true → P) → (b2 ≡ true → P) → (b1 || b2) ≡ true → P
join-counts true b2 h k e = h refl
join-counts false b2 h k e = k e

-- Either the first script is the one that waits, or a later one.
join-moves :
    (b1 b2 : Bool) (j i : ℕ) → (j ≡ i → b1 ≡ true) → (j ≢ i → b2 ≡ true) → (b1 || b2) ≡ true
join-moves true b2 j i h k = refl
join-moves false b2 j i h k = k (λ e. absurd (false_ne_true (h e)))

module _ {F : Type 0} (D : Double F) (host : Host F (World F)) (fuel : ℕ)
    (hm : HostMoves counting host) where
  run_handler-After :
      (i : ℕ) (s : Script F) (o : Option EventDecl) (args : List (SValue F)) (r : Region F)
      → After (Only i r) (run_handler D host fuel i s o args r)
  run_handler-After i s none args r = StepsBut-refl i r
  run_handler-After i s (some e) args r =
      stored-After i r _
        ((dispatch-MovesBy D s.prog host counting hm fuel e args).at (entered i s r))

  handle_in-After :
      (i : ℕ) (s : Script F) (o : Option StateDecl) (name : Str) (args : List (SValue F))
      (r : Region F)
      → After (Only i r) (handle_in D host fuel i s o name args r)
  handle_in-After i s none name args r = tt
  handle_in-After i s (some st) name args r =
      run_handler-After i s (find_event s.prog st.events name) args r

  handle_at-After :
      (i : ℕ) (s : Script F) (o : Option ℕ) (name : Str) (args : List (SValue F)) (r : Region F)
      → After (Only i r) (handle_at D host fuel i s o name args r)
  handle_at-After i s none name args r = StepsBut-refl i r
  handle_at-After i s (some k) name args r = handle_in-After i s _ name args r

  dispatch_event-After :
      (i : ℕ) (ev : Event F) (r : Region F) → After (Only i r) (dispatch_event D host fuel i ev r)
  unfolding dispatch_event
  dispatch_event-After i ev r =
      with_script-After (Only i r) i (λ s. handle_at D host fuel i s s.cur_state ev.name ev.args) r
        λ s _. handle_at-After i s s.cur_state ev.name ev.args r

  switch_to-After :
      (i : ℕ) (s : Script F) (o : Option ℕ) (r : Region F)
      → After (Only i r) (switch_to D host fuel i s o r)
  switch_to-After i s none r = StepsBut-refl i r
  switch_to-After i s (some k) r =
      let r1 : Region F =
        at_script i (λ t. record t { cur_state = some k; pending_state = none; evq = [] }) r in
      bind-After (Only i r1) (Only i r)
        (with_script i (λ t. handle_at D host fuel i t s.cur_state (codes "state_exit") []) r1)
        (λ _. modify (push_to i (codes "state_entry") []))
        (with_script-After (Only i r1) i
          (λ t. handle_at D host fuel i t s.cur_state (codes "state_exit") []) r1
          λ t _. handle_at-After i t s.cur_state (codes "state_exit") [] r1)
        λ _ r2 h.
          StepsBut-trans i r r2 (push_to i (codes "state_entry") [] r2)
            (StepsBut-trans i r r1 r2 (at_script-StepsBut i _ r) h)
            (push_to-StepsBut i (codes "state_entry") [] r2)

  change_state-After : (i : ℕ) (r : Region F) → After (Only i r) (change_state D host fuel i r)
  unfolding change_state
  change_state-After i r =
      with_script-After (Only i r) i (λ s. switch_to D host fuel i s s.pending_state) r
        λ s _. switch_to-After i s s.pending_state r

  -- A turn that handles an event counts a step, and a script with an event has such a turn.
  pub record Turn (i : ℕ) (r : Region F) (moved : Bool) (r' : Region F) : Type 0 where
    pub only : StepsBut i r r'
    pub counts : moved ≡ true → r.n_steps < r'.n_steps
    pub moves : Waiting i r → moved ≡ true

  take_event-After :
      (i : ℕ) (q : List (Event F)) (r : Region F)
      → (has_event (get_elem? r.scripts i) ≡ nonempty q)
      → After (Turn i r) (take_event D host fuel i q r)
  take_event-After i [] r e = record {
    only = StepsBut-refl i r;
    counts = λ q. absurd cc;
    moves = λ w. absurd cc;
  }
  take_event-After i (ev ∷ rest) r e =
      let r1 : Region F = at_script i (λ s. record s { evq = rest }) r in
      bind-After (Only i r1) (Turn i r) (dispatch_event D host fuel i ev r1)
        (λ _.
          modify (λ r. record r { n_steps = r.n_steps + 1 })
          >> (change_state D host fuel i >> pure true))
        (dispatch_event-After i ev r1)
        λ _ r2 h.
          let r3 : Region F = record r2 { n_steps = r2.n_steps + 1 } in
          bind-After (Only i r3) (Turn i r) (change_state D host fuel i r3) (λ _. pure true)
            (change_state-After i r3)
            λ _ r4 k.
              let up : StepsBut i r r2 = StepsBut-trans i r r1 r2 (at_script-StepsBut i _ r) h in
              record {
                only = record {
                  limit = k.limit ∙ up.limit;
                  steps = omega (arith, k.steps, up.steps);
                  waiting = λ j ne w. k.waiting j ne (up.waiting j ne w);
                };
                counts = λ q. omega (arith, k.steps, up.steps);
                moves = λ w. refl;
              }

  script_turn-After : (i : ℕ) (r : Region F) → After (Turn i r) (script_turn D host fuel i r)
  unfolding script_turn
  script_turn-After i r =
      with_script-After (Turn i r) i (λ s. take_event D host fuel i s.evq) r
        λ s e. take_event-After i s.evq r (ap has_event e)

  -- The turns of the `n` scripts from place `i` on.
  pub record Turns (n i : ℕ) (r : Region F) (moved : Bool) (r' : Region F) : Type 0 where
    pub limit : r'.max_steps ≡ r.max_steps
    pub steps : r.n_steps ≤ r'.n_steps
    pub counts : moved ≡ true → r.n_steps < r'.n_steps
    pub moves : (k : ℕ) → i ≤ k → k < i + n → Waiting k r → moved ≡ true

  join :
      (n i : ℕ) (r : Region F) (b1 : Bool) (r1 : Region F) (b2 : Bool) (r2 : Region F)
      → Turn i r b1 r1
      → Turns n (suc i) r1 b2 r2
      → Turns (suc n) i r (b1 || b2) r2
  join n i r b1 r1 b2 r2 h k = record {
    limit = k.limit ∙ h.only.limit;
    steps = omega (arith, h.only.steps, k.steps);
    counts =
        join-counts b1 b2 (λ e. omega (arith, h.counts e, k.steps))
          (λ e. omega (arith, h.only.steps, k.counts e));
    moves = λ j l u w.
        join-moves b1 b2 j i (λ e. h.moves (subst (λ m. Waiting m r) e w))
          (λ ne. k.moves j (omega (arith, ne)) (omega arith) (h.only.waiting j ne w));
  }

  pub drain_queues-After :
      (n i : ℕ) (r : Region F) → After (Turns n i r) (drain_queues D host fuel n i r)
  unfolding drain_queues
  drain_queues-After zero i r = record {
    limit = refl;
    steps = omega arith;
    counts = λ q. absurd cc;
    moves = λ k l u w. absurd (omega arith);
  }
  drain_queues-After (suc n) i r =
      bind-After (Turn i r) (Turns (suc n) i r) (script_turn D host fuel i r)
        (λ moved. drain_queues D host fuel n (suc i) >>= λ rest. pure (moved || rest))
        (script_turn-After i r)
        λ b1 r1 h.
          bind-After (Turns n (suc i) r1) (Turns (suc n) i r)
            (drain_queues D host fuel n (suc i) r1) (λ rest. pure (b1 || rest))
            (drain_queues-After n (suc i) r1) λ b2 r2 k. join n i r b1 r1 b2 r2 h k
