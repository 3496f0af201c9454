-- ===== src/Builtins/Hosts/Counts.antt =====
-- src/builtins.c: no built-in touches the limit of steps or their count, or takes the events of another
-- script.
use sakura_slemu.Base.{
  ℕ, zero, suc, ◌≡◌, refl, subst, sym, Bool, true, false, Option, none, some, List, [], ◌∷◌, ◌++◌,
  map, Str, codes, str_eq, ℤ, get_elem?, if◌then◌else◌, arith,
}
use sakura_slemu.Double.{Double}
use sakura_slemu.Value.{SValue}
use sakura_slemu.Region.State.{Event, Script, Region, ListenEntry, Volume}
use sakura_slemu.Region.Queue.{heard, hear, push_all, push_to, route_listen, script_push_event}
use sakura_slemu.Region.Delivery.{push_all-evq}
use sakura_slemu.Region.Progress.Steps.{
  nonempty, has_event, Waiting, StepsBut, StepsBut-refl, StepsBut-trans, at_script-StepsBut,
}
use sakura_slemu.Commands.Actions.{on_channel}
use sakura_slemu.Builtins.Effects.Effect.{Effect, own}
use sakura_slemu.Builtins.Effects.Chat
use sakura_slemu.Builtins.Effects.Links
use sakura_slemu.Builtins.Effects.Money
use sakura_slemu.Builtins.Effects.Linkset
use sakura_slemu.Builtins.Effects.Web

module _ {F : Type 0} where
  -- What the main loop asks of a built-in.
  abbrev pub Counts : Effect F → Type 0
  Counts f =
      (self : ℕ) (s : Script F) (a : List (SValue F)) (r : Region F)
      → StepsBut self r (f self s a r).0

  -- For a built-in that leaves the region.
  pub reads-Counts :
      (self : ℕ) (s : Script F) (a : List (SValue F)) (r : Region F) → StepsBut self r r
  reads-Counts self s a r = StepsBut-refl self r

  pub own-Counts : (f : Region F → List (SValue F) → Script F → Script F) → Counts (own f)
  own-Counts f self s a r = at_script-StepsBut self (f r a) r

  -- The scripts are as they were, or have more events.
  pub Growing : (Script F → Script F) → Type 0
  Growing f = (t : Script F) → nonempty t.evq ≡ true → nonempty (f t).evq ≡ true

  map-Waiting :
      (f : Script F → Script F) (i : ℕ) (ss : List (Script F))
      → Growing f
      → has_event (get_elem? ss i) ≡ true
      → has_event (get_elem? (map f ss) i) ≡ true
  unfolding Growing
  map-Waiting f i [] g h = h
  map-Waiting f zero (t ∷ ss) g h = g t h
  map-Waiting f (suc i) (t ∷ ss) g h = map-Waiting f i ss g h

  -- The same limit, the same count, and scripts that each have events where they had some.
  pub scripts-StepsBut :
      (self : ℕ) (r r' : Region F)
      → r'.max_steps ≡ r.max_steps
      → r'.n_steps ≡ r.n_steps
      → ((i : ℕ) → Waiting i r → Waiting i r')
      → StepsBut self r r'
  scripts-StepsBut self r r' limit steps w = record {
    limit = limit;
    steps = omega (arith, steps);
    waiting = λ i ne h. w i h;
  }

  -- A queue with an event has one after more are added.
  pub more-nonempty : (q es : List (Event F)) → nonempty q ≡ true → nonempty (q ++ es) ≡ true
  more-nonempty [] es h = absurd cc
  more-nonempty (x ∷ q) es h = refl

  pub still-StepsBut :
      (self : ℕ) (r r' : Region F)
      → r'.max_steps ≡ r.max_steps
      → r'.n_steps ≡ r.n_steps
      → r'.scripts ≡ r.scripts
      → StepsBut self r r'
  still-StepsBut self r r' limit steps e =
      scripts-StepsBut self r r' limit steps
        λ i h. subst (λ ss. has_event (get_elem? ss i) ≡ true) (sym e) h

  pub push_all-Growing :
      (ch : ℤ) (name id msg : Str) (les : Script F → List ListenEntry) (test : ListenEntry → Bool)
      → Growing (λ t. push_all (heard ch name id msg) (les t) test t)
  unfolding Growing
  push_all-Growing ch name id msg les test t h =
      subst (λ q. nonempty q ≡ true) (sym (push_all-evq _ _ (les t) test t))
        (more-nonempty t.evq _ h)

  if-nonempty :
      (b : Bool) (t u : Script F)
      → nonempty t.evq ≡ true
      → nonempty u.evq ≡ true
      → nonempty (if b then u else t).evq ≡ true
  if-nonempty true t u h k = k
  if-nonempty false t u h k = h

  push-Growing :
      (b : Bool) (name : Str) (args : List (SValue F))
      → Growing (λ t. if b then script_push_event name args t else t)
  unfolding Growing script_push_event
  push-Growing b name args t h =
      if-nonempty b t (script_push_event name args t) h (more-nonempty t.evq _ h)

  deliver-Waiting :
      (to : ℕ → Script F → Bool) (args : List (SValue F)) (k i : ℕ) (ss : List (Script F))
      → has_event (get_elem? ss i) ≡ true
      → has_event (get_elem? (Links.deliver to args k ss) i) ≡ true
  unfolding Links.deliver Growing
  deliver-Waiting to args k i [] h = h
  deliver-Waiting to args k zero (t ∷ ss) h = push-Growing (to k t) (codes "link_message") args t h
  deliver-Waiting to args k (suc i) (t ∷ ss) h = deliver-Waiting to args (suc k) i ss h

  tell-Growing : (s : Script F) (id : Str) (ch : ℤ) (msg : Str) → Growing (Chat.tell s id ch msg)
  unfolding Growing
  tell-Growing s id ch msg t h =
      if-nonempty (str_eq t.uuid id) t _ h
        (push_all-Growing ch s.name s.uuid msg (λ t. t.listens) (on_channel ch) t h)

  if-StepsBut :
      (b : Bool) (self : ℕ) (r : Region F) (x y : Region F × Bool)
      → StepsBut self r x.0
      → StepsBut self r y.0
      → StepsBut self r (if b then x else y).0
  if-StepsBut true self r x y h k = h
  if-StepsBut false self r x y h k = k

  pub on_volume-StepsBut :
      (f : Volume → Volume × SValue F) (d : SValue F) (self : ℕ) (r : Region F)
      → StepsBut self r (Linkset.on_volume f d r).0
  on_volume-StepsBut f d self r = at_volume r.volume
    where
      at_volume :
          (v : Option Volume)
          → StepsBut self r
              (elim v as (λ _. Region F × SValue F) [
                | none ↦ (r, d)
                | some w ↦ (record r { volume = some (f w).0 }, (f w).1)
              ]).0
      at_volume none = StepsBut-refl self r
      at_volume (some w) = scripts-StepsBut self r _ refl refl (λ i h. h)

module _ {F : Type 0} (D : Double F) where
  pub bi_say-Counts : (kind : Str) → Counts (Chat.bi_say D kind)
  unfolding Chat.bi_say route_listen hear
  bi_say-Counts kind self s a r =
      scripts-StepsBut self r _ refl refl
        (λ i h. map-Waiting _ i r.scripts (push_all-Growing _ _ _ _ (λ t. t.listens) _) h)

  pub bi_ll_region_say_to-Counts : Counts (Chat.bi_ll_region_say_to D)
  unfolding Chat.bi_ll_region_say_to
  bi_ll_region_say_to-Counts self s a r =
      scripts-StepsBut self r _ refl refl
        (λ i h. map-Waiting _ i r.scripts (tell-Growing s _ _ _) h)

  pub bi_ll_message_linked-Counts : Counts (Links.bi_ll_message_linked D)
  unfolding Links.bi_ll_message_linked
  bi_ll_message_linked-Counts self s a r =
      scripts-StepsBut self r _ refl refl (λ i h. deliver-Waiting _ _ 0 i r.scripts h)

  pub listen-Counts : Counts (Links.listen D)
  unfolding Links.listen
  listen-Counts self s a r =
      let h = at_script-StepsBut self _ r in
      record { limit = h.limit; steps = h.steps; waiting = h.waiting }

  give_money-StepsBut :
      (self : ℕ) (s : Script F) (a : List (SValue F)) (r : Region F)
      → StepsBut self r (Money.give_money D s a r).0
  unfolding Money.give_money
  give_money-StepsBut self s a r =
      if-StepsBut (Money.may_debit D s) self r _ _ (scripts-StepsBut self r _ refl refl (λ i h. h))
        (StepsBut-refl self r)

  pub bi_ll_give_money-Counts : Counts (Money.bi_ll_give_money D)
  unfolding Money.bi_ll_give_money
  bi_ll_give_money-Counts self s a r = give_money-StepsBut self s a r

  pub bi_ll_transfer_linden_dollars-Counts :
      (gen_uuid : ℕ → Str) → Counts (Money.bi_ll_transfer_linden_dollars D gen_uuid)
  unfolding Money.bi_ll_transfer_linden_dollars push_to
  bi_ll_transfer_linden_dollars-Counts gen_uuid self s a r =
      let r' = (Money.give_money D s a r).0 in
      let h = give_money-StepsBut self s a r in
      StepsBut-trans self r (record r' { n_uuids = suc r'.n_uuids }) _
        (record { limit = h.limit; steps = h.steps; waiting = h.waiting })
        (at_script-StepsBut self _ _)

module _ {F : Type 0} (gen_uuid : ℕ → Str) where
  pub bi_ll_request_url-Counts : Counts {F = F} (Web.bi_ll_request_url gen_uuid)
  unfolding Web.bi_ll_request_url push_to
  bi_ll_request_url-Counts self s a r =
      let h = at_script-StepsBut self _ r in
      record { limit = h.limit; steps = h.steps; waiting = h.waiting }
