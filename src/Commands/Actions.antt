-- ===== src/Commands/Actions.antt =====
-- src/commands.c: what each command of commands_pump does to the region. The lines that the commands
-- report are left out, but for the outcomes of the assertions.
use sakura_slemu.Base.{
  ℕ, ◌+◌, Bool, true, false, ◌&&◌, Option, none, some, List, [], ◌∷◌, Str, codes, str_eq, contains,
  ℤ, pos, negsuc, eq_ℤ, ltb_ℤ, add64, sub64, modify_at, find, find_index, if◌then◌else◌,
}
use sakura_slemu.Value.{integer, string, key, null_key}
use sakura_slemu.Region.State.{Script, Region, Avatar, ListenEntry, OpenDialog}
use sakura_slemu.Region.Avatars.{avatar_index, find_avatar}
use sakura_slemu.Region.Dialogs.{dialog_find, dialog_close, inbound_resolve}
use sakura_slemu.Region.Queue.{event, script_push_event, push_to, push_all, route_listen}
use sakura_slemu.Commands.Lines.{chatlog_matches}

abbrev pub first_avatar : List Avatar → Str × Str
first_avatar [] = (codes "anon", codes "Avatar")
first_avatar (a ∷ _) = (a.uuid, a.name)

abbrev pub name_of : Option Avatar → Str
name_of none = codes "Avatar"
name_of (some a) = a.name

abbrev pub or_else : Option Avatar → Option Avatar → Option Avatar
or_else none b = b
or_else (some a) b = some a

abbrev pub first_if : Bool → List Avatar → Option Avatar
first_if false avs = none
first_if true [] = none
first_if true (a ∷ _) = some a

-- By key, then by name, then "*" for the first avatar.
abbrev pub speaker : List Avatar → Option Str → Option Avatar
speaker avs none = none
speaker avs (some who) =
    or_else (find_avatar avs who)
      (or_else (find (λ a. str_eq a.name who) avs) (first_if (str_eq who (codes "*")) avs))

abbrev pub spoken_by : Option Avatar → Option Str → Str × Str
spoken_by (some a) who = (a.name, a.uuid)
spoken_by none (some who) = (who, null_key)
spoken_by none none = (codes "speaker", null_key)

abbrev pub on_channel : ℤ → ListenEntry → Bool
on_channel ch le = le.active && eq_ℤ le.channel ch

abbrev pub debit : ℤ → Avatar → Avatar
debit n a = record a { balance = sub64 a.balance n }

abbrev pub credit : ℤ → Avatar → Avatar
credit n a = record a { balance = add64 a.balance n }

abbrev pub wear : Option Str → Str → List Avatar → List Avatar
wear none object avs = avs
wear (some who) object avs = elim (avatar_index avs who) [
  | none ↦ avs
  | some i ↦ modify_at i (λ a. record a { attached_object = some object }) avs
]

abbrev pub or_null : Option Str → Str
or_null none = null_key
or_null (some k) = k

abbrev pub balance_is : Option Avatar → ℤ → Bool
balance_is none want = false
balance_is (some a) want = eq_ℤ a.balance want

abbrev pub hud_has : Option Str → Str → Bool
hud_has none want = false
hud_has (some text) want = contains text want

abbrev pub is_open : Option OpenDialog → Bool
is_open none = false
is_open (some _) = true

module _ {F : Type 0} where
  abbrev pub at_first : (Script F → Bool) → (Script F → Script F) → Region F → Region F
  at_first test f r = elim (find_index test r.scripts) [
    | none ↦ r
    | some i ↦ record r { scripts = modify_at i f r.scripts }
  ]

  abbrev pub has_link : ℤ → Script F → Bool
  has_link link s = eq_ℤ s.link_num link

  unfoldable pub script_by_link : Region F → ℤ → Option (Script F)
  script_by_link r link = find (has_link link) r.scripts

  unfoldable pub push_detected : Str → Str → ℤ → Script F → Script F
  push_detected uuid name face s = record s {
    detected =
        record {
          key = uuid;
          name = name;
          owner = uuid;
          link_number = pos 0;
          type = pos 1;
          touch_face = face;
        }
        ∷ [];
  }

  abbrev pub push_one : Str → Script F → Script F
  push_one name s = script_push_event name (integer (pos 1) ∷ []) s

  unfoldable pub touch : ℤ → Region F → Region F
  unfolding push_detected script_push_event
  touch link r =
      let (uuid, name) = first_avatar r.avatars in
      at_first (has_link link)
        (λ s. push_one (codes "touch_end") (
          push_one (codes "touch")
            (push_one (codes "touch_start") (push_detected uuid name (negsuc 0) s))))
        r

  abbrev pub start_and_end : Script F → Script F
  start_and_end s = push_one (codes "touch_end") (push_one (codes "touch_start") s)

  unfoldable pub touch_face : ℤ → ℤ → Region F → Region F
  unfolding push_detected script_push_event
  touch_face link face r =
      let (uuid, name) = first_avatar r.avatars in
      at_first (has_link link) (λ s. start_and_end (push_detected uuid name face s)) r

  unfoldable pub touch_as : ℤ → Option Str → Region F → Region F
  unfolding push_detected script_push_event find_avatar
  touch_as link none r = r
  touch_as link (some who) r =
      at_first (has_link link)
        (λ s. start_and_end (push_detected who (name_of (find_avatar r.avatars who)) (negsuc 0) s))
        r

  unfoldable pub listen : ℤ → Option Str → Str → Region F → Region F
  unfolding find_avatar route_listen
  listen ch who msg r =
      let (name, uuid) = spoken_by (speaker r.avatars who) who in route_listen ch name uuid msg r

  -- DIALOG_REPLY and TEXTBOX_REPLY, with the dialog that dialog_find gives.
  abbrev pub reply_to : Option OpenDialog → Str → Str → Region F → Region F
  reply_to none who text r = r
  reply_to (some d) who text r =
      let answered : Region F =
        at_first (λ s. str_eq s.uuid d.script_uuid)
          (λ s.
            push_all
              (event (codes "listen") (
                integer d.channel
                ∷ string (name_of (find_avatar r.avatars who))
                ∷ key who
                ∷ string text
                ∷ []))
              s.listens (on_channel d.channel) s)
          r in
      record answered { dialogs = dialog_close r.dialogs who }

  unfoldable pub dialog_reply : Option Str → Str → Region F → Region F
  unfolding dialog_find dialog_close find_avatar script_push_event
  dialog_reply none text r = r
  dialog_reply (some who) text r = reply_to (dialog_find r.dialogs who) who text r

  -- The payment goes to the first avatar, and the first script is told.
  abbrev pub pay_from : ℕ → Avatar → ℤ → Str → Region F → Region F
  pay_from i a n who r =
      if ltb_ℤ a.balance n
      then r
      else push_to 0 (codes "money") (key who ∷ integer n ∷ [])
          (record r { avatars = modify_at 0 (credit n) (modify_at i (debit n) r.avatars) })

  abbrev pub pay_found : Option ℕ → Option Avatar → ℤ → Str → Region F → Region F
  pay_found (some i) (some a) n who r = pay_from i a n who r
  pay_found _ _ n who r = r

  unfoldable pub money_from : Option Str → ℤ → Region F → Region F
  unfolding push_to
  money_from none n r = r
  money_from (some who) n r =
      pay_found (avatar_index r.avatars who) (find_avatar r.avatars who) n who r

  abbrev pub http_to : Option ℕ → Str → Str → Str → Region F → Region F
  http_to none req_id method body r = r
  http_to (some t) req_id method body r =
      push_to t (codes "http_request") (key req_id ∷ string method ∷ string body ∷ [])
        (record r { n_uuids = r.n_uuids + 1 })

  unfoldable pub http_in : Str → Str → Str → Str → Region F → Region F
  unfolding inbound_resolve push_to
  http_in req_id url method body r = http_to (inbound_resolve r.inbound url) req_id method body r

  abbrev pub first_uuid : List (Script F) → Str
  first_uuid [] = []
  first_uuid (s ∷ _) = s.uuid

  abbrev pub has_scripts : List (Script F) → Bool
  has_scripts [] = false
  has_scripts (_ ∷ _) = true

  unfoldable pub attach : Option Str → Region F → Region F
  unfolding push_to avatar_index
  attach who r =
      if has_scripts r.scripts
      then record (push_to 0 (codes "attach") (key (or_null who) ∷ []) r) {
        avatars = wear who (first_uuid r.scripts) r.avatars;
      }
      else r

  abbrev pub asserted : Bool → Region F → Region F
  asserted ok r = record r { assertions = ok ∷ r.assertions }

  unfoldable pub assert_balance : Option Str → ℤ → Region F → Region F
  unfolding find_avatar
  assert_balance none want r = asserted false r
  assert_balance (some who) want r = asserted (balance_is (find_avatar r.avatars who) want) r

  abbrev pub hud_shows : Option (Script F) → Str → Bool
  hud_shows none want = false
  hud_shows (some s) want = hud_has s.hud_text want

  unfoldable pub assert_hud : ℤ → Str → Region F → Region F
  unfolding script_by_link
  assert_hud link want r = asserted (hud_shows (script_by_link r link) want) r

  unfoldable pub assert_said : Option Str → ℤ → Str → Region F → Region F
  unfolding chatlog_matches
  assert_said kind ch substr r = asserted (chatlog_matches r.chat_log kind ch substr) r

  unfoldable pub assert_dialog_open : Option Str → Region F → Region F
  unfolding dialog_find
  assert_dialog_open none r = asserted false r
  assert_dialog_open (some who) r = asserted (is_open (dialog_find r.dialogs who)) r
