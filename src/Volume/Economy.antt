-- ===== src/Volume/Economy.antt =====
-- src/volume.c: the balances kept in economy.txt.
use sakura_slemu.Base.{
  ℕ, zero, suc, Option, none, some, List, [], ◌∷◌, ◌++◌, Str, ℤ, print_ℤ, strtoll10, modify_at,
  ◌==◌, if◌then◌else◌,
}
use sakura_slemu.Region.State.{Avatar, Region, Volume}
use sakura_slemu.Region.Avatars.{avatar_index, region_add_avatar}

abbrev pub economy_line : Avatar → Str
economy_line a = a.uuid ++ (9 ∷ print_ℤ a.balance ++ (9 ∷ a.name ++ (10 ∷ [])))

unfoldable pub economy_text : List Avatar → Str
economy_text [] = []
economy_text (a ∷ avs) = economy_line a ++ economy_text avs

-- fgets(line, n + 1, f): at most `n` bytes, up to a newline and with it. Gives the line and the rest.
unfoldable pub fgets : ℕ → Str → Str × Str
fgets zero s = ([], s)
fgets (suc n) [] = ([], [])
fgets (suc n) (c ∷ s) =
    let (line, rest) = fgets n s in if c == 10 then (c ∷ [], s) else (c ∷ line, rest)

-- strchr: the text before the first `c` and behind it.
unfoldable pub split_at : ℕ → Str → Option (Str × Str)
split_at c [] = none
split_at c (x ∷ s) =
    let rest = split_at c s in
    if x == c then some ([], s) else elim rest [ none ↦ none | some ab ↦ some (x ∷ ab.0, ab.1) ]

unfoldable pub before : ℕ → Str → Str
before c [] = []
before c (x ∷ s) = let rest = before c s in if x == c then [] else x ∷ rest

abbrev pub name_or_null : Str → Option Str
name_or_null [] = none
name_or_null (c ∷ s) = some (c ∷ s)

-- The name of a known avatar is never NULL, so only its balance is set.
abbrev pub set_balance : Option ℕ → Str → ℤ → Str → List Avatar → List Avatar
set_balance (some i) uuid bal name avs = modify_at i (λ a. record a { balance = bal }) avs
set_balance none uuid bal name avs = (region_add_avatar avs uuid bal (name_or_null name)).1

abbrev pub load_fields : Str → Option (Str × Str) → Str → List Avatar → List Avatar
load_fields uuid (some (bal, name)) rest avs =
    set_balance (avatar_index avs uuid) uuid (strtoll10 bal) (before 10 name) avs
load_fields uuid none rest avs = set_balance (avatar_index avs uuid) uuid (strtoll10 rest) [] avs

abbrev pub load_split : Option (Str × Str) → List Avatar → List Avatar
load_split none avs = avs
load_split (some (uuid, rest)) avs = load_fields uuid (split_at 9 rest) rest avs

-- A line without a tab is skipped.
unfoldable pub load_line : Str → List Avatar → List Avatar
unfolding split_at before avatar_index region_add_avatar
load_line line avs = load_split (split_at 9 line) avs

-- while (fgets(line, 512, f)): every round takes a byte, so the length of the text is enough fuel.
unfoldable pub load_lines : ℕ → Str → List Avatar → List Avatar
unfolding fgets load_line
load_lines zero text avs = avs
load_lines (suc fuel) [] avs = avs
load_lines (suc fuel) (c ∷ s) avs =
    let (line, rest) = fgets 511 (c ∷ s) in load_lines fuel rest (load_line line avs)

abbrev pub text_size : Str → ℕ
text_size [] = 0
text_size (_ ∷ s) = suc (text_size s)

unfoldable pub load_text : Str → List Avatar → List Avatar
unfolding load_lines
load_text text avs = load_lines (text_size text) text avs

module _ {F : Type 0} where
  abbrev pub load_from : Option Volume → Region F → Region F
  load_from none r = r
  load_from (some v) r = elim v.economy [
    | none ↦ r
    | some text ↦ record r { avatars = load_text text r.avatars }
  ]

  abbrev pub save_to : Option Volume → Region F → Region F
  save_to none r = r
  save_to (some v) r = record r {
    volume = some (record v { economy = some (economy_text r.avatars) });
  }

  -- Both do nothing without a volume.
  unfoldable pub volume_load_economy : Region F → Region F
  unfolding load_text
  volume_load_economy r = load_from r.volume r

  unfoldable pub volume_save_economy : Region F → Region F
  unfolding economy_text
  volume_save_economy r = save_to r.volume r
