-- ===== src/Volume/LinksetData.antt =====
-- src/volume.c: the linkset data, one file for each key.
use sakura_slemu.Base.{
  ℕ, Bool, true, false, ◌&&◌, ◌||◌, Option, none, some, List, [], ◌∷◌, Str, str_eq, leb, ◌==◌,
  if◌then◌else◌,
}
use sakura_slemu.Region.State.{Volume}

-- isalnum in the C locale
abbrev pub is_alnum : ℕ → Bool
is_alnum c = (leb 48 c && leb c 57) || (leb 65 c && leb c 90) || (leb 97 c && leb c 122)

abbrev pub is_safe : ℕ → Bool
is_safe c = is_alnum c || c == b'_' || c == b'-' || c == b'.'

unfoldable pub sanitise_key : Str → Str
sanitise_key [] = []
sanitise_key (c ∷ s) = (if is_safe c then c else b'_') ∷ sanitise_key s

-- fopen(fn, "w"): the file of that name, new or emptied.
unfoldable pub write_file : Str → Str → List (Str × Str) → List (Str × Str)
write_file fn val [] = (fn, val) ∷ []
write_file fn val ((k, w) ∷ fs) =
    let rest = write_file fn val fs in if str_eq k fn then (k, val) ∷ fs else (k, w) ∷ rest

unfoldable pub read_named : Str → List (Str × Str) → Option Str
read_named fn [] = none
read_named fn ((k, w) ∷ fs) = let rest = read_named fn fs in if str_eq k fn then some w else rest

unfoldable pub remove_file : Str → List (Str × Str) → List (Str × Str)
remove_file fn [] = []
remove_file fn ((k, w) ∷ fs) =
    let rest = remove_file fn fs in if str_eq k fn then rest else (k, w) ∷ rest

abbrev pub is_some : Option Str → Bool
is_some none = false
is_some (some _) = true

-- Whether the file could be opened, and the volume.
unfoldable pub volume_lsd_write : Str → Str → Volume → Bool × Volume
unfolding sanitise_key write_file
volume_lsd_write k val v =
    if v.writes (sanitise_key k)
    then (true, record v { lsd = write_file (sanitise_key k) val v.lsd })
    else (false, v)

unfoldable pub volume_lsd_read : Str → Volume → Option Str
unfolding sanitise_key read_named
volume_lsd_read k v = read_named (sanitise_key k) v.lsd

-- Whether a file was removed, and the volume.
unfoldable pub volume_lsd_delete : Str → Volume → Bool × Volume
unfolding sanitise_key read_named remove_file
volume_lsd_delete k v = (
  is_some (read_named (sanitise_key k) v.lsd),
  record v { lsd = remove_file (sanitise_key k) v.lsd },
)

-- The names of the files. One that is ".txt" alone, of the empty key, is left out.
abbrev pub listed : List (Str × Str) → List Str
listed [] = []
listed (([], w) ∷ fs) = listed fs
listed ((c ∷ k, w) ∷ fs) = (c ∷ k) ∷ listed fs

unfoldable pub volume_lsd_list_keys : Volume → List Str
volume_lsd_list_keys v = listed v.lsd
