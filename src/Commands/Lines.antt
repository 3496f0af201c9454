-- ===== src/Commands/Lines.antt =====
-- src/commands.c: commands_load, the tokens of a line, and the log of chat.
use sakura_slemu.Base.{
  ℕ, Bool, true, false, ◌&&◌, ◌||◌, Option, none, some, List, [], ◌∷◌, ◌++◌, Str, codes, str_eq,
  is_empty, contains, ℤ, negsuc, eq_ℤ, ◌==◌, if◌then◌else◌, to_i32, strtoll10,
}
use sakura_slemu.Region.State.{ChatRec}

abbrev pub is_blank : ℕ → Bool
is_blank c = c == 32 || c == 9

-- Also rest_of_line.
unfoldable pub skip_blanks : Str → Str
skip_blanks [] = []
skip_blanks (c ∷ s) = let rest = skip_blanks s in if is_blank c then rest else c ∷ s

-- A token, and the line behind it and the blank that ends it.
unfoldable pub split_tok : Str → Str × Str
split_tok [] = ([], [])
split_tok (c ∷ s) = let (tok, rest) = split_tok s in if is_blank c then ([], s) else (c ∷ tok, rest)

abbrev pub some_tok : Str → Option Str × Str
some_tok [] = (none, [])
some_tok (c ∷ s) = let (tok, rest) = split_tok (c ∷ s) in (some tok, rest)

unfoldable pub next_tok : Str → Option Str × Str
unfolding skip_blanks split_tok
next_tok line = some_tok (skip_blanks line)

-- atoi, with the default that the commands give for a missing token
unfoldable pub int_or : ℤ → Option Str → ℤ
int_or d none = d
int_or d (some s) = to_i32 (strtoll10 s)

-- The lines of a text; a text that ends with a newline has no empty line at its end.
unfoldable pub split_lines : Str → Str → List Str
split_lines acc [] = if is_empty acc then [] else acc ∷ []
split_lines acc (c ∷ s) =
    let line = split_lines [] s in
    let more = split_lines (acc ++ (c ∷ [])) s in if c == 10 then acc ∷ line else more

-- Blanks and carriage returns at the end of a line are cut off.
unfoldable pub trim_end : Str → Str
trim_end [] = []
trim_end (c ∷ s) =
    let rest = trim_end s in if is_empty rest && (is_blank c || c == 13) then [] else c ∷ rest

abbrev pub is_comment : Str → Bool
is_comment [] = true
is_comment (c ∷ s) = c == b'#'

unfoldable pub command_lines : List Str → List Str
unfolding trim_end skip_blanks
command_lines [] = []
command_lines (l ∷ ls) =
    let rest = command_lines ls in
    if is_comment (skip_blanks (trim_end l)) then rest else trim_end l ∷ rest

-- The commands of a file: its lines but the blank ones and the comments.
unfoldable pub commands_load : Str → List Str
unfolding split_lines command_lines
commands_load text = command_lines (split_lines [] text)

unfoldable pub chatlog_record : Str → ℤ → Str → List ChatRec → List ChatRec
chatlog_record kind ch msg log = record { kind = kind; ch = ch; msg = msg } ∷ log

unfoldable pub chatlog_alias : Str → Str
chatlog_alias k =
    if str_eq k (codes "owner-say") || str_eq k (codes "owner_say")
    then codes "owner"
    else if str_eq k (codes "region-say") || str_eq k (codes "region_say")
    then codes "region"
    else if str_eq k (codes "region-say-to") || str_eq k (codes "region-to")
    then codes "region-to"
    else if str_eq k (codes "instant-message")
        || str_eq k (codes "instant_message")
        || str_eq k (codes "im")
    then codes "im"
    else k

-- INT_MAX_SENTINEL: any channel
abbrev pub any_channel : ℤ
any_channel = negsuc 2147483646

abbrev pub chat_fits : Str → ℤ → Str → ChatRec → Bool
chat_fits want ch substr c =
    (is_empty want || str_eq c.kind want)
    && (eq_ℤ ch any_channel || eq_ℤ c.ch ch)
    && (is_empty substr || contains c.msg substr)

-- A missing kind (NULL) is any kind.
unfoldable pub chatlog_matches : List ChatRec → Option Str → ℤ → Str → Bool
unfolding chatlog_alias
chatlog_matches [] kind ch substr = false
chatlog_matches (c ∷ log) kind ch substr =
    chat_fits (elim kind [ none ↦ [] | some k ↦ chatlog_alias k ]) ch substr c
    || chatlog_matches log kind ch substr
