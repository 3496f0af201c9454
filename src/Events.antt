-- ===== src/Events.antt =====
-- src/events.c: the lines of --json-events, one for each call of a function of that file. The other format, for
-- people, and what the debugger catches are left out.
use sakura_slemu.Base.{
  ℕ, ◌+◌, ◌/◌, ◌%◌, Bool, true, false, ◌||◌, List, [], ◌∷◌, ◌++◌, Str, codes, ℤ, pos, and64, eq_ℤ,
  print_ℤ, ltb, leb, ◌==◌, if◌then◌else◌, length, take, is_empty,
}
use sakura_slemu.Double.{Double}
use sakura_slemu.Region.State.{Script, Region}
pub mod OneLine

abbrev pub hex_lower : ℕ → ℕ
hex_lower n = if ltb n 10 then 48 + n else 87 + n

-- A byte of a JSON string; below 32, "\u%04x".
unfoldable pub emit_char : ℕ → Str
emit_char c =
    if c == 34 || c == 92
    then 92 ∷ c ∷ []
    else if c == 10
    then 92 ∷ b'n' ∷ []
    else if c == 13
    then 92 ∷ b'r' ∷ []
    else if c == 9
    then 92 ∷ b't' ∷ []
    else if ltb c 32
    then 92 ∷ b'u' ∷ b'0' ∷ b'0' ∷ hex_lower (c / 16) ∷ hex_lower (c % 16) ∷ []
    else c ∷ []

unfoldable pub emit_chars : Str → Str
unfolding emit_char
emit_chars [] = []
emit_chars (c ∷ s) = emit_char c ++ emit_chars s

unfoldable pub j_emit_str : Str → Str
unfolding emit_chars
j_emit_str s = 34 ∷ emit_chars s ++ (34 ∷ [])

-- One call of a j_kv function, or the list of buttons.
pub data Field (F : Type 0) : Type 0 where
  str_field : Str → Str → Field F
  int_field : Str → ℤ → Field F
  dbl_field : Str → F → Field F
  strs_field : Str → List Str → Field F

abbrev pub key_of : {F : Type 0} → Field F → Str
key_of (str_field k v) = k
key_of (int_field k v) = k
key_of (dbl_field k v) = k
key_of (strs_field k v) = k

unfoldable pub emit_strs : List Str → Str
unfolding j_emit_str
emit_strs [] = []
emit_strs (t ∷ []) = j_emit_str t
emit_strs (t ∷ u ∷ ts) = j_emit_str t ++ (44 ∷ emit_strs (u ∷ ts))

module _ {F : Type 0} (D : Double F) where
  unfoldable pub emit_value : Field F → Str
  unfolding j_emit_str emit_strs print_ℤ
  emit_value (str_field k v) = j_emit_str v
  emit_value (int_field k v) = print_ℤ v
  emit_value (dbl_field k v) = D.print6 v
  emit_value (strs_field k ts) = 91 ∷ emit_strs ts ++ (93 ∷ [])

  unfoldable pub emit_fields : List (Field F) → Str
  unfolding emit_value
  emit_fields [] = []
  emit_fields (f ∷ fs) = (44 ∷ 34 ∷ key_of f ++ (34 ∷ 58 ∷ [])) ++ (emit_value f ++ emit_fields fs)

-- The functions of the emitter with their arguments.
pub data SideEffect (F : Type 0) : Type 0 where
  evt_chat : Script F → Str → ℤ → Str → SideEffect F
  evt_chat_to : Script F → Str → ℤ → Str → SideEffect F
  evt_dialog : Script F → Str → Str → List Str → ℤ → Bool → SideEffect F
  evt_loadurl : Script F → Str → Str → Str → SideEffect F
  evt_hud_text : Script F → Str → F → F → F → F → SideEffect F
  evt_money : Str → Str → ℤ → ℤ → SideEffect F
  evt_permission_request : Script F → Str → ℤ → SideEffect F
  evt_link_msg : Script F → ℤ → ℤ → Str → Str → SideEffect F
  evt_http_out : Script F → Str → Str → ℤ → ℕ → SideEffect F
  evt_state_change : Script F → Str → Str → SideEffect F
  evt_event_dispatch : Script F → Str → ℕ → SideEffect F
  evt_die : Script F → SideEffect F
  evt_reset : Script F → SideEffect F
  evt_info : Str → SideEffect F
  evt_lsd_set : Script F → Str → Str → SideEffect F
  evt_prim_set : Script F → Str → SideEffect F
  evt_agent_data_request : Script F → Str → Str → SideEffect F
  evt_rez : Script F → Str → SideEffect F
  evt_assertion : Str → ℤ → Str → SideEffect F

abbrev pub perm_names : List (ℕ × Str)
perm_names =
    (1, codes "PERMISSION_DEBIT_LEGACY")
    ∷ (2, codes "PERMISSION_DEBIT")
    ∷ (4, codes "PERMISSION_TAKE_CONTROLS")
    ∷ (8, codes "PERMISSION_REMAP_CONTROLS")
    ∷ (16, codes "PERMISSION_TRIGGER_ANIMATION")
    ∷ (32, codes "PERMISSION_ATTACH")
    ∷ (64, codes "PERMISSION_RELEASE_OWNERSHIP")
    ∷ (128, codes "PERMISSION_CHANGE_LINKS")
    ∷ (256, codes "PERMISSION_CHANGE_JOINTS")
    ∷ (512, codes "PERMISSION_CHANGE_PERMISSIONS")
    ∷ (1024, codes "PERMISSION_TRACK_CAMERA")
    ∷ (2048, codes "PERMISSION_CONTROL_CAMERA")
    ∷ []

-- The names of the bits that are set, as long as they fit a buffer of 256 bytes.
unfoldable pub add_perms : ℤ → List (ℕ × Str) → Str → Str
add_perms mask [] buf = buf
add_perms mask ((bit, name) ∷ names) buf =
    let longer = add_perms mask names ((if is_empty buf then [] else buf ++ (b'|' ∷ [])) ++ name) in
    let same = add_perms mask names buf in
    if eq_ℤ (and64 mask (pos bit)) (pos 0)
    then same
    else if leb 256 (length buf + length name + 2)
    then buf
    else longer

unfoldable pub perm_mask_str : ℤ → Str
unfolding add_perms print_ℤ
perm_mask_str mask =
    let names = add_perms mask perm_names [] in if is_empty names then print_ℤ mask else names

module _ {F : Type 0} where
  abbrev src : Script F → Field F
  src s = str_field (codes "src") s.name

  -- The type of a line, and what stands behind it.
  unfoldable pub json_event : SideEffect F → Str × List (Field F)
  unfolding perm_mask_str
  json_event (evt_chat s kind ch msg) = (
    codes "chat",
    str_field (codes "kind") kind
        ∷ int_field (codes "ch") ch
        ∷ src s
        ∷ str_field (codes "src_uuid") s.uuid
        ∷ str_field (codes "msg") msg
        ∷ [],
  )
  json_event (evt_chat_to s to ch msg) = (
    codes "chat",
    str_field (codes "kind") (codes "region-to")
        ∷ int_field (codes "ch") ch
        ∷ src s
        ∷ str_field (codes "src_uuid") s.uuid
        ∷ str_field (codes "to") to
        ∷ str_field (codes "msg") msg
        ∷ [],
  )
  json_event (evt_dialog s to msg buttons ch textbox) = (
    if textbox then codes "textbox" else codes "dialog",
    src s
        ∷ str_field (codes "src_uuid") s.uuid
        ∷ str_field (codes "to") to
        ∷ int_field (codes "ch") ch
        ∷ str_field (codes "msg") msg
        ∷ (if textbox then [] else strs_field (codes "buttons") buttons ∷ []),
  )
  json_event (evt_loadurl s to label url) = (
    codes "loadurl",
    src s
        ∷ str_field (codes "to") to
        ∷ str_field (codes "label") label
        ∷ str_field (codes "url") url
        ∷ [],
  )
  json_event (evt_hud_text s text r g b a) = (
    codes "hud",
    src s
        ∷ str_field (codes "text") text
        ∷ dbl_field (codes "r") r
        ∷ dbl_field (codes "g") g
        ∷ dbl_field (codes "b") b
        ∷ dbl_field (codes "a") a
        ∷ [],
  )
  json_event (evt_money from to amt ok) = (
    codes "money",
    str_field (codes "from") from
        ∷ str_field (codes "to") to
        ∷ int_field (codes "amount") amt
        ∷ int_field (codes "ok") ok
        ∷ [],
  )
  json_event (evt_permission_request s who mask) = (
    codes "permission-request",
    src s
        ∷ str_field (codes "who") who
        ∷ str_field (codes "mask") (perm_mask_str mask)
        ∷ int_field (codes "mask_bits") mask
        ∷ [],
  )
  json_event (evt_link_msg s target num str id) = (
    codes "link_message",
    src s
        ∷ int_field (codes "src_link") s.link_num
        ∷ int_field (codes "target_link") target
        ∷ int_field (codes "num") num
        ∷ str_field (codes "str") str
        ∷ str_field (codes "id") id
        ∷ [],
  )
  json_event (evt_http_out s url method status len) = (
    codes "http_out",
    src s
        ∷ str_field (codes "url") url
        ∷ str_field (codes "method") method
        ∷ int_field (codes "status") status
        ∷ int_field (codes "body_len") (pos len)
        ∷ [],
  )
  json_event (evt_state_change s from to) =
      (codes "state_change", src s ∷ str_field (codes "from") from ∷ str_field (codes "to") to ∷ [])
  json_event (evt_event_dispatch s name n) = (
    codes "dispatch",
    src s ∷ str_field (codes "event") name ∷ int_field (codes "n_args") (pos n) ∷ [],
  )
  json_event (evt_die s) = (codes "die", src s ∷ [])
  json_event (evt_reset s) = (codes "reset", src s ∷ [])
  json_event (evt_info msg) = (codes "info", str_field (codes "msg") (take 1023 msg) ∷ [])
  json_event (evt_lsd_set s k v) =
      (codes "lsd_set", src s ∷ str_field (codes "key") k ∷ str_field (codes "value") v ∷ [])
  json_event (evt_prim_set s fn) = (codes "prim-set", src s ∷ str_field (codes "fn") fn ∷ [])
  json_event (evt_agent_data_request s who kind) = (
    codes "agent-data-request",
    src s ∷ str_field (codes "who") who ∷ str_field (codes "kind") kind ∷ [],
  )
  json_event (evt_rez s inventory) =
      (codes "rez", src s ∷ str_field (codes "inventory") inventory ∷ [])
  json_event (evt_assertion what passed detail) = (
    codes "assertion",
    str_field (codes "what") what
        ∷ int_field (codes "passed") passed
        ∷ str_field (codes "detail") detail
        ∷ [],
  )

-- Only --trace shows the dispatch of events.
abbrev pub prints : {F : Type 0} → Region F → SideEffect F → Bool
prints r (evt_event_dispatch s name n) = r.trace
prints r _ = true

-- `print3` is "%.3f".
module _ {F : Type 0} (D : Double F) (print3 : F → Str) where
  -- j_open, and what the event prints up to j_close.
  unfoldable pub j_body : Region F → Str × List (Field F) → Str
  unfolding emit_fields
  j_body r (type, fields) =
      (123 ∷ 34 ∷ 116 ∷ 34 ∷ 58 ∷ print3 r.virtual_now)
      ++ ((44 ∷ 34 ∷ codes "type" ++ (34 ∷ 58 ∷ 34 ∷ [])) ++ (type ++ (34 ∷ emit_fields D fields)))

  unfoldable pub emit : Region F → SideEffect F → Str
  unfolding j_body json_event
  emit r e = if prints r e then j_body r (json_event e) ++ (125 ∷ 10 ∷ []) else []
