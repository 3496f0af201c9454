-- ===== src/Region/State.antt =====
-- src/slemu.h: the records of a region. Times are doubles. Strings that the source keeps as NULL
-- until they are set are options. The fields of the debugger, of HTTP and of the output are left out.
use sakura_slemu.Base.{ℕ, Bool, Option, List, Str, ℤ}
use sakura_slemu.Syntax.{Program}
use sakura_slemu.Value.{SValue}

pub record Event (F : Type 0) : Type 0 where
  pub name : Str
  pub args : List (SValue F)

pub record ListenEntry : Type 0 where
  pub handle : ℤ
  pub channel : ℤ
  pub name_filter : Str
  pub id_filter : Str
  pub msg_filter : Str
  pub active : Bool

-- An entry of Script.detected; the places on the face are constants, and left out.
pub record Detected : Type 0 where
  pub key : Str
  pub name : Str
  pub owner : Str
  pub link_number : ℤ
  pub type : ℤ
  pub touch_face : ℤ

pub record Script (F : Type 0) : Type 0 where
  pub prog : Program
  pub link_num : ℤ
  pub name : Str
  pub desc : Str
  pub uuid : Str
  -- `none` is -1
  pub cur_state : Option ℕ
  pub pending_state : Option ℕ
  pub globals : List (SValue F)
  -- evq_head … evq_tail
  pub evq : List (Event F)
  pub timer_interval : F
  pub timer_due : F
  pub listens : List ListenEntry
  pub perms : ℤ
  pub perms_key : Option Str
  pub detected : List Detected
  pub hud_text : Option Str

pub record Avatar : Type 0 where
  pub uuid : Str
  pub name : Str
  pub balance : ℤ
  pub attached_object : Option Str

pub record Group : Type 0 where
  pub uuid : Str
  pub name : Str
  pub members : List Str

pub record OpenDialog : Type 0 where
  pub script_uuid : Str
  pub to_avatar : Str
  pub message : Str
  pub buttons : List Str
  pub channel : ℤ
  pub is_textbox : Bool

-- `target` is the place of the script.
pub record InboundUrl : Type 0 where
  pub url : Str
  pub target : ℕ
  pub req_key : Str

-- chatlog entries of src/commands.c
pub record ChatRec : Type 0 where
  pub kind : Str
  pub ch : ℤ
  pub msg : Str

-- A project volume: the text of economy.txt, and the files of lsd/ by name without ".txt". `writes` is
-- the file system's: whether it opens the file of that name in lsd/ for writing (it does not if the
-- name is too long, or the directory is read-only).
pub record Volume : Type 0 where
  pub economy : Option Str
  pub lsd : List (Str × Str)
  pub writes : Str → Bool

-- match_url and body are NULL in a new entry.
pub record HttpFixtureEntry : Type 0 where
  pub match_url : Option Str
  pub status : ℤ
  pub body : Option Str

-- Also the static variables g_chat_log and next_handle, the environment variable SLEMU_OWNER, and the
-- outcomes that evt_assertion reports, last first. `n_uuids` counts the calls of gen_uuid. `commands` are the lines from next_command on.
pub record Region (F : Type 0) : Type 0 where
  pub scripts : List (Script F)
  pub virtual_now : F
  pub virtual_offset : F
  pub avatars : List Avatar
  pub groups : List Group
  pub inbound : List InboundUrl
  pub http_fix : List HttpFixtureEntry
  pub dialogs : List OpenDialog
  pub volume : Option Volume
  pub max_steps : ℕ
  pub n_steps : ℕ
  pub commands : List Str
  pub chat_log : List ChatRec
  pub next_handle : ℤ
  pub env_owner : Option Str
  pub assertions : List Bool
  pub n_uuids : ℕ
  pub trace : Bool
