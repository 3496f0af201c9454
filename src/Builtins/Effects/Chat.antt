-- ===== src/Builtins/Effects/Chat.antt =====
-- src/builtins.c: chat and dialogs.
use sakura_slemu.Base.{
  ℕ, Bool, true, false, none, some, List, [], map, Str, codes, str_eq, ℤ, pos, negsuc, to_i32,
  get_elem?, if◌then◌else◌,
}
use sakura_slemu.Double.{Double}
use sakura_slemu.Value.{SValue, void, list_items, sv_to_string}
use sakura_slemu.Region.State.{Script, Region}
use sakura_slemu.Region.Dialogs.{dialog_open}
use sakura_slemu.Region.Queue.{heard, push_all, route_listen}
use sakura_slemu.Commands.Actions.{on_channel}
use sakura_slemu.Commands.Lines.{chatlog_record}
use sakura_slemu.Builtins.Args.{ai, as_text}
use sakura_slemu.Builtins.Effects.Effect.{Effect, own}

module _ {F : Type 0} where
  abbrev pub log_chat : Str → ℤ → Str → Region F → Region F
  log_chat kind ch msg r = record r { chat_log = chatlog_record kind ch msg r.chat_log }

  -- The listens of the addressed script on the channel hear, whatever their filters.
  abbrev pub tell : Script F → Str → ℤ → Str → Script F → Script F
  tell s id ch msg t =
      if str_eq t.uuid id
      then push_all (heard ch s.name s.uuid msg) t.listens (on_channel ch) t
      else t

module _ {F : Type 0} (D : Double F) where
  -- llSay, llWhisper, llShout and llRegionSay, with the kind that they log.
  unfoldable pub bi_say : Str → Effect F
  unfolding ai as_text chatlog_record route_listen to_i32
  bi_say kind self s a r =
      let ch = to_i32 (ai D a 0) in
      let msg = as_text a 1 in (route_listen ch s.name s.uuid msg (log_chat kind ch msg r), void)

  unfoldable pub bi_ll_owner_say : Effect F
  unfolding as_text chatlog_record
  bi_ll_owner_say self s a r = (log_chat (codes "owner") (pos 0) (as_text a 0) r, void)

  unfoldable pub bi_ll_instant_message : Effect F
  unfolding as_text chatlog_record
  bi_ll_instant_message self s a r = (log_chat (codes "im") (negsuc 0) (as_text a 1) r, void)

  unfoldable pub bi_ll_region_say_to : Effect F
  unfolding ai as_text chatlog_record to_i32
  bi_ll_region_say_to self s a r =
      let ch = to_i32 (ai D a 1) in
      let msg = as_text a 2 in
      let logged = log_chat (codes "region-to") ch msg r in
      (record logged { scripts = map (tell s (as_text a 0) ch msg) logged.scripts }, void)

  unfoldable pub bi_ll_set_text : Effect F
  unfolding as_text
  bi_ll_set_text = own (λ r a t. record t { hud_text = some (as_text a 0) })

  abbrev pub open_dialog : Script F → Str → Str → List Str → ℤ → Bool → Region F → Region F
  open_dialog s id msg buttons ch textbox r = record r {
    dialogs = dialog_open r.dialogs s.uuid id msg buttons ch textbox;
  }

  -- The texts of the items of the argument at a place, if it is a list.
  abbrev pub texts_at : List (SValue F) → ℕ → List Str
  texts_at a i = elim (get_elem? a i) [ none ↦ [] | some v ↦ map (sv_to_string D) (list_items v) ]

  unfoldable pub bi_ll_dialog : Effect F
  unfolding ai as_text dialog_open sv_to_string to_i32
  bi_ll_dialog self s a r =
      (open_dialog s (as_text a 0) (as_text a 1) (texts_at a 2) (to_i32 (ai D a 3)) false r, void)

  unfoldable pub bi_ll_text_box : Effect F
  unfolding ai as_text dialog_open to_i32
  bi_ll_text_box self s a r =
      (open_dialog s (as_text a 0) (as_text a 1) [] (to_i32 (ai D a 2)) true r, void)
