-- ===== src/Commands/Counters.antt =====
-- src/commands.c: what a command may do to the counters of the region.
use sakura_slemu.Base.{
  ℕ, ◌+◌, ◌<◌, ◌≡◌, refl, Bool, true, false, Option, none, some, List, [], ◌∷◌, Str, ℤ,
  if◌then◌else◌, ◌⊎◌, inl, inr, find_index, arith, ltb_ℤ,
}
use sakura_slemu.Double.{Double}
use sakura_slemu.Region.State.{Script, Region, Avatar, OpenDialog}
use sakura_slemu.Region.Queue.{push_to, region_broadcast_event, route_listen}
use sakura_slemu.Commands.Lines.{next_tok}
use sakura_slemu.Commands.Actions.{
  at_first, touch, touch_face, touch_as, listen, dialog_reply, reply_to, money_from, pay_found,
  http_in, http_to, attach, has_scripts, assert_balance, assert_hud, assert_said,
  assert_dialog_open,
}
use sakura_slemu.Commands.Pump.{run_command, wait, run_line, pump_lines, commands_pump}

module _ {F : Type 0} where
  -- The limit is the same, and the count is the same or beyond the limit.
  pub record Counted (r r' : Region F) : Type 0 where
    pub limit : r'.max_steps ≡ r.max_steps
    pub steps : (r'.n_steps ≡ r.n_steps) ⊎ (r.max_steps < r'.n_steps)

  Counted-refl : (r : Region F) → Counted r r
  Counted-refl r = record { limit = refl; steps = inl refl }

  Counted-if :
      (b : Bool) (r x y : Region F) → Counted r x → Counted r y → Counted r (if b then x else y)
  Counted-if true r x y h k = h
  Counted-if false r x y h k = k

  at_place :
      (o : Option ℕ) (r : Region F) (f : ℕ → List (Script F))
      → Counted r (elim o [ none ↦ r | some i ↦ record r { scripts = f i } ])
  at_place none r f = record { limit = refl; steps = inl refl }
  at_place (some i) r f = record { limit = refl; steps = inl refl }

  at_first-Counted :
      (test : Script F → Bool) (f : Script F → Script F) (r : Region F)
      → Counted r (at_first test f r)
  at_first-Counted test f r = at_place (find_index test r.scripts) r _

  touch-Counted : (link : ℤ) (r : Region F) → Counted r (touch link r)
  unfolding touch
  touch-Counted link r = at_first-Counted _ _ r

  touch_face-Counted : (link face : ℤ) (r : Region F) → Counted r (touch_face link face r)
  unfolding touch_face
  touch_face-Counted link face r = at_first-Counted _ _ r

  touch_as-Counted : (link : ℤ) (who : Option Str) (r : Region F) → Counted r (touch_as link who r)
  unfolding touch_as
  touch_as-Counted link none r = Counted-refl r
  touch_as-Counted link (some who) r = at_first-Counted _ _ r

  listen-Counted :
      (ch : ℤ) (who : Option Str) (msg : Str) (r : Region F) → Counted r (listen ch who msg r)
  unfolding listen route_listen
  listen-Counted ch who msg r = record { limit = refl; steps = inl refl }

  dialogs-Counted :
      (r x : Region F) (ds : List OpenDialog) → Counted r x → Counted r (record x { dialogs = ds })
  dialogs-Counted r x ds h = record { limit = h.limit; steps = h.steps }

  reply_to-Counted :
      (o : Option OpenDialog) (who text : Str) (r : Region F) → Counted r (reply_to o who text r)
  reply_to-Counted none who text r = Counted-refl r
  reply_to-Counted (some d) who text r = dialogs-Counted r _ _ (at_first-Counted _ _ r)

  dialog_reply-Counted :
      (who : Option Str) (text : Str) (r : Region F) → Counted r (dialog_reply who text r)
  unfolding dialog_reply
  dialog_reply-Counted none text r = Counted-refl r
  dialog_reply-Counted (some who) text r = reply_to-Counted _ who text r

  push_to-Counted :
      (i : ℕ) (name : Str) (args : List _) (r : Region F) → Counted r (push_to i name args r)
  unfolding push_to
  push_to-Counted i name args r = record { limit = refl; steps = inl refl }

  broadcast-Counted :
      (name : Str) (args : List _) (r : Region F) → Counted r (region_broadcast_event name args r)
  unfolding region_broadcast_event
  broadcast-Counted name args r = record { limit = refl; steps = inl refl }

  pay_found-Counted :
      (o : Option ℕ) (p : Option Avatar) (n : ℤ) (who : Str) (r : Region F)
      → Counted r (pay_found o p n who r)
  unfolding push_to
  pay_found-Counted none p n who r = Counted-refl r
  pay_found-Counted (some i) none n who r = Counted-refl r
  pay_found-Counted (some i) (some a) n who r =
      Counted-if (ltb_ℤ a.balance n) r _ _ (Counted-refl r)
        (record { limit = refl; steps = inl refl })

  money_from-Counted : (who : Option Str) (n : ℤ) (r : Region F) → Counted r (money_from who n r)
  unfolding money_from
  money_from-Counted none n r = Counted-refl r
  money_from-Counted (some who) n r = pay_found-Counted _ _ n who r

  http_to-Counted :
      (o : Option ℕ) (req_id method body : Str) (r : Region F)
      → Counted r (http_to o req_id method body r)
  unfolding push_to
  http_to-Counted none req_id method body r = Counted-refl r
  http_to-Counted (some t) req_id method body r = record { limit = refl; steps = inl refl }

  http_in-Counted :
      (req_id url method body : Str) (r : Region F) → Counted r (http_in req_id url method body r)
  unfolding http_in
  http_in-Counted req_id url method body r = http_to-Counted _ req_id method body r

  attach-Counted : (who : Option Str) (r : Region F) → Counted r (attach who r)
  unfolding attach push_to
  attach-Counted who r =
      Counted-if (has_scripts r.scripts) r _ _ (record { limit = refl; steps = inl refl })
        (Counted-refl r)

  assert_balance-Counted :
      (who : Option Str) (want : ℤ) (r : Region F) → Counted r (assert_balance who want r)
  unfolding assert_balance
  assert_balance-Counted none want r = record { limit = refl; steps = inl refl }
  assert_balance-Counted (some who) want r = record { limit = refl; steps = inl refl }

  assert_hud-Counted : (link : ℤ) (want : Str) (r : Region F) → Counted r (assert_hud link want r)
  unfolding assert_hud
  assert_hud-Counted link want r = record { limit = refl; steps = inl refl }

  assert_said-Counted :
      (kind : Option Str) (ch : ℤ) (substr : Str) (r : Region F)
      → Counted r (assert_said kind ch substr r)
  unfolding assert_said
  assert_said-Counted kind ch substr r = record { limit = refl; steps = inl refl }

  assert_dialog_open-Counted :
      (who : Option Str) (r : Region F) → Counted r (assert_dialog_open who r)
  unfolding assert_dialog_open
  assert_dialog_open-Counted none r = record { limit = refl; steps = inl refl }
  assert_dialog_open-Counted (some who) r = record { limit = refl; steps = inl refl }

  exit-Counted : (r : Region F) → Counted r (record r { n_steps = r.max_steps + 1 })
  exit-Counted r = record { limit = refl; steps = inr (omega arith) }

ruleset counted_rules = (
  Counted-refl, Counted-if, exit-Counted, touch-Counted, touch_face-Counted, touch_as-Counted,
  listen-Counted, dialog_reply-Counted, push_to-Counted, broadcast-Counted, money_from-Counted,
  http_in-Counted, attach-Counted, assert_balance-Counted, assert_hud-Counted, assert_said-Counted,
  assert_dialog_open-Counted,
)

module _ {F : Type 0} (D : Double F) (gen_uuid : ℕ → Str) where
  wait-Counted : (s : F) (r : Region F) → Counted r (wait D gen_uuid s r)
  wait-Counted s r = record { limit = refl; steps = inl refl }

  run_command-Counted :
      (cmd line : Str) (r : Region F) → Counted r (run_command D gen_uuid cmd line r)
  unfolding run_command
  run_command-Counted cmd line r = search (counted_rules, wait-Counted) depth 60

  run_line-Counted :
      (t : Option Str × Str) (r : Region F) (lines : List Str)
      → Counted r (run_line D gen_uuid t (record r { commands = lines }))
  run_line-Counted (none, rest) r lines = record { limit = refl; steps = inl refl }
  run_line-Counted (some cmd, rest) r lines =
      let h = run_command-Counted cmd rest (record r { commands = lines }) in
      record { limit = h.limit; steps = h.steps }

  -- What a command leaves, if there was one.
  abbrev pub PumpCounted : Region F → Option (Region F) → Type 0
  PumpCounted r none = Unit
  PumpCounted r (some r') = Counted r r'

  lines-Counted : (lines : List Str) (r : Region F) → PumpCounted r (pump_lines D gen_uuid lines r)
  lines-Counted [] r = tt
  lines-Counted (line ∷ lines) r = run_line-Counted (next_tok line) r lines

  pub commands_pump-Counted : (r : Region F) → PumpCounted r (commands_pump D gen_uuid r)
  unfolding commands_pump
  commands_pump-Counted r = lines-Counted r.commands r
