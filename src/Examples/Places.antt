-- ===== src/Examples/Places.antt =====
-- The theorems on the region, its commands and its volume at small concrete states.
use sakura_slemu.Base.{
  ℕ, Str, ltb, length, ◌&&◌, if◌then◌else◌, ◌≡◌, refl, replicate, true, false, none, some, List, [],
  ◌∷◌, codes, ℤ, pos, All, arith, get_elem?, str_eq,
}
use mathlib.Core.Option
use sakura_slemu.Value.{null_key, integer, string, key}
use sakura_slemu.Region.State.{Script, Region, Avatar, ListenEntry, OpenDialog, Volume}
use sakura_slemu.Region.Avatars.{find_avatar, region_add_avatar, region_set_owner}
use sakura_slemu.Region.Balances.{balance_of, region_add_avatar-balance, region_set_owner-balance}
use sakura_slemu.Region.Dialogs.{dialog_open, dialog_find, dialog_close}
use sakura_slemu.Region.Menus.{dialog_find-close}
use sakura_slemu.Region.Queue.{event, route_listen}
use sakura_slemu.Region.Delivery.{Hears, CountOf, route_listen-evq}
use sakura_slemu.Commands.Actions.{money_from}
use sakura_slemu.Commands.Money.{total, Small, money_from-total}
use sakura_slemu.Volume.LinksetData.{volume_lsd_read, volume_lsd_write}
use sakura_slemu.Volume.Files.{FileNameOf, volume_lsd_read-write}
use sakura_slemu.Examples.Programs.{counter}

abbrev pub alice : Avatar
alice = record {
  uuid = codes "alice";
  name = codes "Alice";
  balance = pos 100;
  attached_object = none;
}

abbrev pub bob : Avatar
bob = record { uuid = codes "bob"; name = codes "Bob"; balance = pos 40; attached_object = none }

abbrev pub ear : ListenEntry
ear = record {
  handle = pos 1;
  channel = pos 5;
  name_filter = [];
  id_filter = null_key;
  msg_filter = codes "hi";
  active = true;
}

abbrev pub listener : Script ℤ
listener = record {
  prog = counter;
  link_num = pos 1;
  name = codes "Object";
  desc = [];
  uuid = codes "prim";
  cur_state = some 0;
  pending_state = none;
  globals = [];
  evq = [];
  timer_interval = pos 0;
  timer_due = pos 0;
  listens = ear ∷ record ear { active = false } ∷ [];
  perms = pos 0;
  perms_key = none;
  detected = [];
  hud_text = none;
}

abbrev pub plaza : Region ℤ
plaza = record {
  scripts = listener ∷ [];
  virtual_now = pos 0;
  virtual_offset = pos 0;
  avatars = alice ∷ bob ∷ [];
  groups = [];
  inbound = [];
  http_fix = [];
  dialogs = [];
  volume = none;
  max_steps = 10;
  n_steps = 0;
  commands = codes "TOUCH 1" ∷ codes "EXIT" ∷ [];
  chat_log = [];
  next_handle = pos 1;
  env_owner = none;
  assertions = [];
  n_uuids = 0;
  trace = false;
}

region_set_owner-balance_example :
    balance_of (find_avatar (region_set_owner plaza (codes "bob") none).avatars (codes "bob"))
    ≡ pos 40
unfolding find_avatar str_eq
region_set_owner-balance_example = region_set_owner-balance plaza (codes "bob") none (codes "bob")

region_add_avatar-balance_example :
    balance_of
      (find_avatar (region_add_avatar (alice ∷ []) (codes "carl") (pos 7) none).1 (codes "carl"))
    ≡ pos 7
unfolding str_eq
region_add_avatar-balance_example =
    region_add_avatar-balance (alice ∷ []) (codes "carl") (pos 7) none (codes "carl")

abbrev pub menu : List OpenDialog
menu =
    dialog_open (dialog_open [] (codes "prim") (codes "bob") [] [] (pos 5) true) (codes "prim")
      (codes "alice") [] [] (pos 5) false

dialog_find-close_example : dialog_find (dialog_close menu (codes "alice")) (codes "alice") ≡ none
unfolding str_eq
dialog_find-close_example = dialog_find-close menu (codes "alice") (codes "alice")

route_listen-evq_example :
    (n : ℕ) × CountOf (Hears (pos 5) (codes "Bob") (codes "bob") (codes "hi")) listener.listens n
    × (Option.map
          (λ t. t.evq)
          (get_elem?
            (route_listen (pos 5) (codes "Bob") (codes "bob") (codes "hi") plaza).scripts
            0)
        ≡ some (
            replicate n (
              event (codes "listen") (
                integer (pos 5)
                ∷ string (codes "Bob")
                ∷ key (codes "bob")
                ∷ string (codes "hi")
                ∷ []))))
route_listen-evq_example =
    route_listen-evq (pos 5) (codes "Bob") (codes "bob") (codes "hi") plaza 0 listener refl

plaza-Small : All (λ a. Small a.balance) plaza.avatars
plaza-Small = ground arith

money_from-total_example :
    total (money_from (some (codes "bob")) (pos 30) plaza).avatars ≡ total plaza.avatars
money_from-total_example =
    money_from-total (some (codes "bob")) (pos 30) plaza plaza-Small (ground arith)

abbrev pub shelf : Volume
shelf = record {
  economy = none;
  lsd = (codes "a_b", codes "old") ∷ [];
  writes = λ fn. ltb (length fn) 252;
}

volume_lsd_read-write_example :
    (fn : Str) × (fn' : Str) × FileNameOf (codes "a/b") fn
    × FileNameOf (codes "a b") fn'
    × ((volume_lsd_write (codes "a/b") (codes "new") shelf).0 ≡ shelf.writes fn)
    × (volume_lsd_read (codes "a b") (volume_lsd_write (codes "a/b") (codes "new") shelf).1 ≡ (
        if shelf.writes fn && str_eq fn fn'
        then some (codes "new")
        else volume_lsd_read (codes "a b") shelf))
volume_lsd_read-write_example =
    volume_lsd_read-write (codes "a/b") (codes "new") (codes "a b") shelf
