-- ===== src/Region/Dialogs.antt =====
-- src/dialog.c: open dialogs, and the URLs that scripts asked for. snapshot_dump only prints.
use sakura_slemu.Base.{
  ℕ, Bool, Option, none, some, List, [], ◌∷◌, ◌++◌, Str, codes, str_eq, contains, ℤ, find,
  if◌then◌else◌,
}
use sakura_slemu.Region.State.{OpenDialog, InboundUrl}

-- A textbox has no buttons, whatever is given.
unfoldable pub dialog_open :
    List OpenDialog → Str → Str → Str → List Str → ℤ → Bool → List OpenDialog
dialog_open ds script_uuid to msg buttons channel is_textbox =
    record {
      script_uuid = script_uuid;
      to_avatar = to;
      message = msg;
      buttons = if is_textbox then [] else buttons;
      channel = channel;
      is_textbox = is_textbox;
    }
    ∷ ds

unfoldable pub dialog_find : List OpenDialog → Str → Option OpenDialog
dialog_find ds avatar = find (λ d. str_eq d.to_avatar avatar) ds

unfoldable pub dialog_close : List OpenDialog → Str → List OpenDialog
dialog_close [] avatar = []
dialog_close (d ∷ ds) avatar =
    let rest = dialog_close ds avatar in if str_eq d.to_avatar avatar then rest else d ∷ rest

abbrev pub inbound_url : Str → Str → Str
inbound_url uuid req_key = codes "http://slemu.local/" ++ uuid ++ codes "/" ++ req_key

unfoldable pub inbound_register : List InboundUrl → ℕ → Str → Str → List InboundUrl
inbound_register us target uuid req_key =
    record { url = inbound_url uuid req_key; target = target; req_key = req_key } ∷ us

abbrev pub target_of : Option InboundUrl → Option ℕ → Option ℕ
target_of none d = d
target_of (some u) d = some u.target

-- The script of just that URL, or else of one that the text contains.
unfoldable pub inbound_resolve : List InboundUrl → Str → Option ℕ
inbound_resolve us url =
    target_of (find (λ u. str_eq u.url url) us) (target_of (find (λ u. contains url u.url) us) none)
