-- ===== src/Commands/Pump.antt =====
-- src/commands.c: commands_pump. `gen_uuid` gives the random keys of src/util.c.
use sakura_slemu.Base.{
  ℕ, ◌+◌, Option, none, some, List, [], ◌∷◌, Str, codes, str_eq, ℤ, pos, strtoll10, if◌then◌else◌,
}
use sakura_slemu.Double.{Double}
use sakura_slemu.Value.{integer, key, null_key, f_zero}
use sakura_slemu.Region.State.{Region}
use sakura_slemu.Region.Queue.{push_to, region_broadcast_event}
use sakura_slemu.Commands.Lines.{next_tok, skip_blanks, int_or, any_channel}
use sakura_slemu.Commands.Actions.{
  touch, touch_face, touch_as, listen, dialog_reply, money_from, http_in, attach, assert_balance,
  assert_hud, assert_said, assert_dialog_open,
}

abbrev pub text_or : Str → Option Str → Str
text_or d none = d
text_or d (some s) = s

-- strtoll of an optional token
abbrev pub amount_of : Option Str → ℤ
amount_of none = pos 0
amount_of (some s) = strtoll10 s

module _ {F : Type 0} (D : Double F) (gen_uuid : ℕ → Str) where
  abbrev pub seconds : Option Str → F
  seconds none = f_zero D
  seconds (some s) = D.strtod s

  abbrev pub wait : F → Region F → Region F
  wait s r = record r { virtual_offset = D.add r.virtual_offset s }

  -- The command named `cmd`, with the rest of its line.
  unfoldable pub run_command : Str → Str → Region F → Region F
  unfolding next_tok skip_blanks int_or touch touch_face touch_as listen dialog_reply money_from
      http_in attach assert_balance assert_hud assert_said assert_dialog_open push_to
      region_broadcast_event
  run_command cmd line r =
      let (t1, p1) = next_tok line in
      let (t2, p2) = next_tok p1 in
      if str_eq cmd (codes "WAIT")
      then wait (seconds t1) r
      else if str_eq cmd (codes "EXIT")
      then record r { n_steps = r.max_steps + 1 }
      else if str_eq cmd (codes "TOUCH")
      then touch (int_or (pos 1) t1) r
      else if str_eq cmd (codes "TOUCH_FACE")
      then touch_face (int_or (pos 1) t1) (int_or (pos 0) t2) r
      else if str_eq cmd (codes "TOUCH_AS")
      then touch_as (int_or (pos 1) t1) t2 r
      else if str_eq cmd (codes "LISTEN")
      then listen (int_or (pos 0) t1) t2 (skip_blanks p2) r
      else if str_eq cmd (codes "DIALOG_REPLY")
      then dialog_reply t1 (skip_blanks p1) r
      else if str_eq cmd (codes "TEXTBOX_REPLY")
      then dialog_reply t1 (skip_blanks p1) r
      else if str_eq cmd (codes "MONEY_FROM")
      then money_from t1 (amount_of t2) r
      else if str_eq cmd (codes "HTTP_IN")
      then http_in (gen_uuid r.n_uuids) (text_or [] t1) (text_or (codes "GET") t2) (skip_blanks p2)
          r
      else if str_eq cmd (codes "ATTACH")
      then attach t1 r
      else if str_eq cmd (codes "DETACH")
      then push_to 0 (codes "attach") (key null_key ∷ []) r
      else if str_eq cmd (codes "ON_REZ")
      then region_broadcast_event (codes "on_rez") (integer (int_or (pos 0) t1) ∷ []) r
      else if str_eq cmd (codes "CHANGED")
      then region_broadcast_event (codes "changed") (integer (int_or (pos 0) t1) ∷ []) r
      else if str_eq cmd (codes "ASSERT_BALANCE")
      then assert_balance t1 (amount_of t2) r
      else if str_eq cmd (codes "ASSERT_HUD")
      then assert_hud (int_or (pos 1) t1) (skip_blanks p1) r
      else if str_eq cmd (codes "ASSERT_SAID")
      then assert_said t1 (int_or any_channel t2) (skip_blanks p2) r
      else if str_eq cmd (codes "ASSERT_DIALOG_OPEN")
      then assert_dialog_open t1 r
      else r

  abbrev pub run_line : Option Str × Str → Region F → Region F
  run_line (none, rest) r = r
  run_line (some cmd, rest) r = run_command cmd rest r

  abbrev pub pump_lines : List Str → Region F → Option (Region F)
  pump_lines [] r = none
  pump_lines (line ∷ lines) r = some (run_line (next_tok line) (record r { commands = lines }))

  -- `none` when there is no command left.
  unfoldable pub commands_pump : Region F → Option (Region F)
  unfolding next_tok run_command
  commands_pump r = pump_lines r.commands r
