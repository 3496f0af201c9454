-- ===== src/Region/Progress/Ends.antt =====
-- src/region.c: the main loop ends within as many rounds as the limit of steps leaves.
use sakura_slemu.Base.{
  ℕ, zero, suc, ◌+◌, ◌≤◌, ◌<◌, ◌≡◌, refl, ◌∙◌, subst, Bool, true, false, Option, none, some, List,
  [], ◌∷◌, ◌++◌, Str, get_elem?, modify_at, length, length-modify_at, if◌then◌else◌, arith, ◌||◌,
  ◌&&◌, inl, inr, ltb, leb,
}
use sakura_slemu.Double.{Double}
use sakura_slemu.Vm.Outcome.{done, Action, pure, gets, ◌>>=◌}
use sakura_slemu.Vm.Eval.{Host}
use sakura_slemu.Vm.World.{HostMoves}
use sakura_slemu.Region.State.{Event, Script, Region}
use sakura_slemu.Region.Queue.{push_to}
use sakura_slemu.Region.Dispatch.{World}
use sakura_slemu.Region.Loop.{
  earliest_timer, fire_found, fire_timer, drain_queues, region_round, out_of_steps, stepped, pumped,
  region_loop,
}
use sakura_slemu.Commands.Pump.{commands_pump}
use sakura_slemu.Commands.Counters.{PumpCounted, commands_pump-Counted}
use sakura_slemu.Region.Progress.Steps.{nonempty, has_event, Waiting, counting, After, bind-After}
use sakura_slemu.Region.Progress.Turns.{Turns, drain_queues-After}

abbrev InRange : ℕ → Option ℕ → Type 0
InRange n none = Unit
InRange n (some k) = k < n

module _ {F : Type 0} where
  abbrev found_at : F × Option ℕ → Option ℕ
  found_at best = best.1

module _ {F : Type 0} (D : Double F) where
  better-InRange :
      (b : Bool) (n i : ℕ) (x : F) (best : F × Option ℕ)
      → i < n
      → InRange n best.1
      → InRange n (found_at (if b then (x, some i) else best))
  better-InRange true n i x best l h = l
  better-InRange false n i x best l h = h

  earliest-InRange :
      (n : ℕ) (el : F) (i : ℕ) (ss : List (Script F)) (best : F × Option ℕ)
      → i + length ss ≡ n
      → InRange n best.1
      → InRange n (earliest_timer D el i ss best).1
  unfolding earliest_timer
  earliest-InRange n el i [] best e h = h
  earliest-InRange n el i (s ∷ ss) (t, o) e h =
      earliest-InRange n el (suc i) ss _ (omega (arith, e))
        (better-InRange _ n i s.timer_due (t, o) (omega (arith, e)) h)

  pushed-Waiting :
      (i : ℕ) (ss : List (Script F)) (f g : Script F → Script F)
      → i < length ss
      → ((s : Script F) → nonempty (f (g s)).evq ≡ true)
      → has_event (get_elem? (modify_at i f (modify_at i g ss)) i) ≡ true
  pushed-Waiting i [] f g l h = absurd (omega arith)
  pushed-Waiting zero (s ∷ ss) f g l h = h s
  pushed-Waiting (suc i) (s ∷ ss) f g l h = pushed-Waiting i ss f g (omega arith) h

  pushed-length :
      (i : ℕ) (ss : List (Script F)) (f g : Script F → Script F)
      → i < length ss
      → i < length (modify_at i f (modify_at i g ss))
  pushed-length i ss f g l =
      let e : length (modify_at i f (modify_at i g ss)) ≡ length (modify_at i g ss) =
        length-modify_at i f _ in
      let e' : length (modify_at i g ss) ≡ length ss = length-modify_at i g ss in
      omega (arith, e, e')

  -- The counters are as they were, and if a timer fired, some script has an event.
  record Fired (r : Region F) (fired : Bool) (r' : Region F) : Type 0 where
    limit : r'.max_steps ≡ r.max_steps
    steps : r'.n_steps ≡ r.n_steps
    waits : fired ≡ true → (k : ℕ) × (k < length r'.scripts) × Waiting k r'

  nonempty-append : (q : List (Event F)) (ev : Event F) → nonempty (q ++ (ev ∷ [])) ≡ true
  nonempty-append [] ev = refl
  nonempty-append (x ∷ q) ev = refl

  fire_found-After :
      (best : F × Option ℕ) (r : Region F)
      → InRange (length r.scripts) best.1
      → After (Fired r) (fire_found D best r)
  unfolding push_to
  fire_found-After (e, none) r h = record { limit = refl; steps = refl; waits = λ q. absurd cc }
  fire_found-After (e, some i) r h = record {
    limit = refl;
    steps = refl;
    waits = λ q. (
      i,
      pushed-length i r.scripts _ _ h,
      pushed-Waiting i r.scripts _ _ h λ s. nonempty-append s.evq _,
    );
  }

  fire_timer-After : (r : Region F) → After (Fired r) (fire_timer D r)
  unfolding fire_timer
  fire_timer-After r =
      fire_found-After _ r
        (earliest-InRange (length r.scripts) r.virtual_offset 0 r.scripts _ (omega arith) tt)

module _ {F : Type 0} (D : Double F) (host : Host F (World F)) (fuel : ℕ)
    (hm : HostMoves counting host) where
  record Round (r : Region F) (progress : Bool) (r' : Region F) : Type 0 where
    limit : r'.max_steps ≡ r.max_steps
    steps : r.n_steps ≤ r'.n_steps
    counts : progress ≡ true → r.n_steps < r'.n_steps

  moved_by_timer :
      (r r1 r2 : Region F) (fired moved : Bool)
      → Fired D r fired r1
      → Turns D host fuel hm (length r1.scripts) 0 r1 moved r2
      → (fired || moved) ≡ true
      → moved ≡ true
  moved_by_timer r r1 r2 true moved h k e =
      let (j, l, w) = h.waits refl in k.moves j (omega arith) (omega arith) w
  moved_by_timer r r1 r2 false moved h k e = e

  region_round-After : (r : Region F) → After (Round r) (region_round D host fuel r)
  unfolding region_round
  region_round-After r =
      bind-After (Fired D r) (Round r) (fire_timer D r)
        (λ fired. gets (λ r. length r.scripts) >>= λ n.
          drain_queues D host fuel n 0 >>= λ moved. pure (fired || moved))
        (fire_timer-After D r)
        λ fired r1 h.
          bind-After (Turns D host fuel hm (length r1.scripts) 0 r1) (Round r)
            (drain_queues D host fuel (length r1.scripts) 0 r1) (λ moved. pure (fired || moved))
            (drain_queues-After D host fuel hm (length r1.scripts) 0 r1)
            λ moved r2 k. record {
              limit = k.limit ∙ h.limit;
              steps = omega (arith, h.steps, k.steps);
              counts =
                  λ e. omega (arith, h.steps, k.counts (moved_by_timer r r1 r2 fired moved h k e));
            }

  if-After :
      {A : Type 0} (P : A → Region F → Type 0) (b : Bool) (m n : Action (Region F) A) (r : Region F)
      → (b ≡ true → After P (m r))
      → (b ≡ false → After P (n r))
      → After P ((if b then m else n) r)
  if-After P true m n r h k = h refl
  if-After P false m n r h k = k refl

  abbrev Ended : Bool → Region F → Type 0
  Ended b r = b ≡ true

  module _ (gen_uuid : ℕ → Str) (expired : ℕ → Bool) where
    or_left : (a b : Bool) → (a || b) ≡ false → a ≡ false
    or_left true b e = e
    or_left false b e = refl

    steps_left : (max n : ℕ) → 0 < max → (ltb 0 max && leb max n) ≡ false → n < max
    steps_left max n h e = ground arith

    -- One more round, from a state that has counted a step.
    pumped-After :
        (k : ℕ) (r1 : Region F) (o : Option (Region F)) (next : Action (Region F) Bool)
        → PumpCounted D gen_uuid r1 o
        → r1.max_steps ≤ r1.n_steps + suc k
        → ((r2 : Region F)
            → r2.max_steps ≡ r1.max_steps
            → r1.max_steps ≤ r2.n_steps + k
            → After Ended (next r2))
        → After Ended (pumped D host fuel gen_uuid expired o next r1)
    pumped-After k r1 none next c l h = refl
    pumped-After k r1 (some r2) next c l h =
        h (stepped D host fuel gen_uuid expired r2) c.limit
          (elim c.steps [ inl e ↦ omega (arith, e) | inr e ↦ omega (arith, e) ])

    region_loop-After :
        (k : ℕ) (r : Region F)
        → 0 < r.max_steps
        → r.max_steps ≤ r.n_steps + k
        → After Ended (region_loop D host fuel gen_uuid expired (suc k) r)
    unfolding region_loop
    region_loop-After zero r pos_max l =
        if-After Ended (out_of_steps D host fuel gen_uuid expired r || expired 0) (pure true) _ r
          (λ _. refl)
          λ e.
            let low : r.n_steps < r.max_steps =
              steps_left r.max_steps r.n_steps pos_max
                (or_left (out_of_steps D host fuel gen_uuid expired r) (expired 0) e) in
            absurd (omega (arith, low))
    region_loop-After (suc k) r pos_max l =
        let next : Action (Region F) Bool = region_loop D host fuel gen_uuid expired (suc k) in
        if-After Ended (out_of_steps D host fuel gen_uuid expired r || expired (suc k)) (pure true)
          _ r (λ _. refl)
          λ e.
            let low : r.n_steps < r.max_steps =
              steps_left r.max_steps r.n_steps pos_max
                (or_left (out_of_steps D host fuel gen_uuid expired r) (expired (suc k)) e) in
            bind-After (Round r) Ended (region_round D host fuel r)
              (λ progress. gets (λ r. r) >>= λ r'.
                if progress
                then next
                else pumped D host fuel gen_uuid expired (commands_pump D gen_uuid r') next)
              (region_round-After r)
              λ progress r1 h.
                if-After Ended progress next
                  (pumped D host fuel gen_uuid expired (commands_pump D gen_uuid r1) next) r1
                  (λ q.
                    region_loop-After k r1 (omega (arith, h.limit))
                      (omega (arith, h.limit, h.counts q)))
                  (λ q.
                    pumped-After k r1 (commands_pump D gen_uuid r1) next
                      (commands_pump-Counted D gen_uuid r1) (omega (arith, h.limit, h.steps))
                      λ r2 e2 l2.
                        region_loop-After k r2 (omega (arith, h.limit, e2)) (omega (arith, e2)))

    -- With a limit of steps, the main loop ends within as many rounds as the limit leaves, and one more:
    -- whatever the scripts do, if it gives a result it has not run out of rounds. The condition on the
    -- built-ins: they keep the limit, do not lower the count, and leave no other script without events
    -- that had some, if the evaluator that they are given does so.
    pub region_loop_ends :
        (rounds : ℕ) (r r' : Region F) (ended : Bool)
        → 0 < r.max_steps
        → r.max_steps ≤ r.n_steps + rounds
        → region_loop D host fuel gen_uuid expired (suc rounds) r ≡ done ended r'
        → ended ≡ true
    region_loop_ends rounds r r' ended pos_max l e =
        subst (After Ended) e (region_loop-After rounds r pos_max l)
