-- ===== src/Region/Avatars.antt =====
-- src/region.c: the avatars and the groups of a region.
use sakura_slemu.Base.{
  ℕ, Bool, true, false, Option, none, some, List, [], ◌∷◌, ◌++◌, Str, str_eq, is_empty, ℤ, pos,
  length, find, find_index, modify_at, if◌then◌else◌,
}
use sakura_slemu.Region.State.{Avatar, Group, Region}

abbrev pub is_avatar : Str → Avatar → Bool
is_avatar uuid a = str_eq a.uuid uuid

-- The place of the first avatar of a key.
unfoldable pub avatar_index : List Avatar → Str → Option ℕ
avatar_index avs uuid = find_index (is_avatar uuid) avs

unfoldable pub find_avatar : List Avatar → Str → Option Avatar
find_avatar avs uuid = find (is_avatar uuid) avs

abbrev pub or_name : Option Str → Str → Str
or_name none d = d
or_name (some n) d = n

abbrev pub update_avatar : ℤ → Option Str → Avatar → Avatar
update_avatar balance name a = record a { balance = balance; name = or_name name a.name }

abbrev pub new_avatar : Str → ℤ → Option Str → Avatar
new_avatar uuid balance name = record {
  uuid = uuid;
  name = or_name name [];
  balance = balance;
  attached_object = none;
}

abbrev pub add_or_update : Option ℕ → List Avatar → Str → ℤ → Option Str → ℕ × List Avatar
add_or_update none avs uuid balance name = (length avs, avs ++ (new_avatar uuid balance name ∷ []))
add_or_update (some i) avs uuid balance name = (i, modify_at i (update_avatar balance name) avs)

-- Gives the place of the avatar, too.
unfoldable pub region_add_avatar : List Avatar → Str → ℤ → Option Str → ℕ × List Avatar
unfolding avatar_index
region_add_avatar avs uuid balance name =
    add_or_update (avatar_index avs uuid) avs uuid balance name

abbrev pub named : Option Str → Avatar → Avatar
named none a = a
named (some n) a = if is_empty a.name then record a { name = n } else a

abbrev pub own_or_add : Option ℕ → List Avatar → Str → Option Str → List Avatar
own_or_add (some i) avs uuid name = modify_at i (named name) avs
own_or_add none avs uuid name = (region_add_avatar avs uuid (pos 0) name).1

module _ {F : Type 0} where
  unfoldable pub region_find_avatar : Region F → Str → Option Avatar
  unfolding find_avatar
  region_find_avatar r uuid = find_avatar r.avatars uuid

  unfoldable pub region_set_owner : Region F → Str → Option Str → Region F
  unfolding avatar_index region_add_avatar
  region_set_owner r uuid name = record r {
    avatars = own_or_add (avatar_index r.avatars uuid) r.avatars uuid name;
    env_owner = some uuid;
  }

abbrev pub is_group : Str → Group → Bool
is_group uuid g = str_eq g.uuid uuid

abbrev pub add_group : Option ℕ → List Group → Str → Option Str → ℕ × List Group
add_group (some i) gs uuid name = (i, gs)
add_group none gs uuid name =
    (length gs, gs ++ (record { uuid = uuid; name = or_name name []; members = [] } ∷ []))

unfoldable pub region_add_group : List Group → Str → Option Str → ℕ × List Group
region_add_group gs uuid name = add_group (find_index (is_group uuid) gs) gs uuid name

abbrev pub join_group : Option ℕ → List Group → Str → Bool × List Group
join_group none gs member = (false, gs)
join_group (some i) gs member =
    (true, modify_at i (λ g. record g { members = g.members ++ (member ∷ []) }) gs)

unfoldable pub region_group_add_member : List Group → Str → Str → Bool × List Group
region_group_add_member gs group member = join_group (find_index (is_group group) gs) gs member
