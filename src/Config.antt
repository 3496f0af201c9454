-- ===== src/Config.antt =====
-- src/config.c: the directives of a configuration file.
pub mod Directives
use sakura_slemu.Base.{
  ℕ, Bool, true, false, Option, none, some, List, [], ◌∷◌, Str, codes, str_eq, is_empty, ℤ, pos,
  to_i32, strtoll10, if◌then◌else◌,
}
use sakura_slemu.Commands.Lines.{commands_load, next_tok, skip_blanks}
use sakura_slemu.Region.State.{Region, HttpFixtureEntry}
use sakura_slemu.Region.Avatars.{
  region_add_avatar, region_set_owner, region_add_group, region_group_add_member,
}
use sakura_slemu.Http.{new_entry, atoi}

-- The words of a line; next_word and rest are next_tok and rest_of_line of commands.c.
abbrev pub word_or : Option Str → Str → Str
word_or none d = d
word_or (some w) d = w

abbrev pub name_or : Str → Str → Str
name_or n d = if is_empty n then d else n

abbrev pub number_or_0 : Option Str → ℤ
number_or_0 none = pos 0
number_or_0 (some w) = strtoll10 w

-- The region, and whether the first fixture is being read.
abbrev pub Loading : Type 0 → Type 0
Loading F = Region F × Bool

module _ {F : Type 0} where
  abbrev pub add : Str → ℤ → Str → Region F → Region F
  add uuid bal name r = record r { avatars = (region_add_avatar r.avatars uuid bal (some name)).1 }

  unfoldable pub owner_line : Str → Region F → Region F
  unfolding next_tok skip_blanks strtoll10 region_add_avatar region_set_owner
  owner_line cur r =
      let (uuid, more) = next_tok cur in
      let (bal, tail) = next_tok more in
      let name = name_or (skip_blanks tail) (codes "Owner") in
      let key = word_or uuid (codes "00000000-0000-0000-0000-000000000000") in
      region_set_owner (add key (number_or_0 bal) name r) key (some name)

  abbrev pub add_named : Option Str → Option Str × Str → Region F → Region F
  add_named none (bal, tail) r = r
  add_named (some key) (bal, tail) r =
      add key (number_or_0 bal) (name_or (skip_blanks tail) (codes "Avatar")) r

  unfoldable pub avatar_line : Str → Region F → Region F
  unfolding next_tok skip_blanks strtoll10 region_add_avatar
  avatar_line cur r = let (uuid, more) = next_tok cur in add_named uuid (next_tok more) r

  unfoldable pub group_line : Str → Region F → Region F
  unfolding next_tok skip_blanks region_add_group
  group_line cur r =
      let (uuid, tail) = next_tok cur in
      elim uuid [
        | none ↦ r
        | some key ↦ record r {
          groups =
              (region_add_group r.groups key (some (name_or (skip_blanks tail) (codes "Group")))).1;
        }
      ]

  abbrev pub join_line : Option Str → Option Str → Region F → Region F
  join_line (some g) (some a) r = record r { groups = (region_group_add_member r.groups g a).1 }
  join_line _ _ r = r

  unfoldable pub group_member_line : Str → Region F → Region F
  unfolding next_tok region_group_add_member
  group_member_line cur r =
      let (group, more) = next_tok cur in
      let (member, tail) = next_tok more in join_line group member r

  -- new_fix, with the URL
  abbrev pub new_fix : Str → Region F → Region F
  new_fix url r = record r { http_fix = record new_entry { match_url = some url } ∷ r.http_fix }

  abbrev pub on_fix : (HttpFixtureEntry → HttpFixtureEntry) → Bool → Region F → Region F
  on_fix f true r = record r { http_fix = elim r.http_fix [ [] ↦ [] | e ∷ es ↦ f e ∷ es ] }
  on_fix f false r = r

  -- One directive; an unknown one, and NAME, does nothing.
  unfoldable pub config_line : Str → Loading F → Loading F
  unfolding next_tok skip_blanks to_i32 strtoll10 owner_line avatar_line group_line
      group_member_line
  config_line line (r, fx) =
      let (word, cur) = next_tok line in
      let w = word_or word [] in
      if str_eq w (codes "OWNER")
      then (owner_line cur r, fx)
      else if str_eq w (codes "AVATAR")
      then (avatar_line cur r, fx)
      else if str_eq w (codes "GROUP")
      then (group_line cur r, fx)
      else if str_eq w (codes "GROUP_MEMBER")
      then (group_member_line cur r, fx)
      else if str_eq w (codes "FIXTURE_URL")
      then (new_fix (skip_blanks cur) r, true)
      else if str_eq w (codes "FIXTURE_STATUS")
      then (on_fix (λ e. record e { status = atoi (skip_blanks cur) }) fx r, fx)
      else if str_eq w (codes "FIXTURE_BODY")
      then (on_fix (λ e. record e { body = some (skip_blanks cur) }) fx r, fx)
      else if str_eq w (codes "FIXTURE_END")
      then (r, false)
      else (r, fx)

  unfoldable pub config_lines : List Str → Loading F → Loading F
  unfolding config_line
  config_lines [] l = l
  config_lines (line ∷ lines) l = config_lines lines (config_line line l)

  -- The lines are cut, trimmed and skipped as in commands_load.
  unfoldable pub config_load : Str → Region F → Region F
  unfolding commands_load config_lines
  config_load text r = (config_lines (commands_load text) (r, false)).0
