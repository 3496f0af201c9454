-- ===== src/Http.antt =====
-- src/http.c: the fixtures that stand for web servers. A real request, by curl, is a parameter.
pub mod Request
pub mod Answers
use sakura_slemu.Base.{
  ℕ, zero, suc, Bool, true, false, ◌&&◌, ◌||◌, Option, none, some, List, [], ◌∷◌, Str, codes,
  is_empty, starts_with, contains, ℤ, pos, to_i32, strtoll10, ◌==◌, find, drop, if◌then◌else◌,
}
use sakura_slemu.Commands.Lines.{skip_blanks}
use sakura_slemu.Region.State.{HttpFixtureEntry}

abbrev pub new_entry : HttpFixtureEntry
new_entry = record { match_url = none; status = pos 200; body = none }

-- The text up to a newline, and behind it, if there is one.
unfoldable pub cut_line : Str → Str × Option Str
cut_line [] = ([], none)
cut_line (c ∷ s) =
    let (line, rest) = cut_line s in if c == 10 then ([], some s) else (c ∷ line, rest)

-- One carriage return at the end of a line is cut off.
unfoldable pub drop_cr : Str → Str
drop_cr [] = []
drop_cr (c ∷ s) = let rest = drop_cr s in if is_empty s && c == 13 then [] else c ∷ rest

abbrev pub atoi : Str → ℤ
atoi s = to_i32 (strtoll10 s)

-- The entry, with what a line says: `line` without its end, which is where `p` starts. The number of a
-- STATUS is read on from there, over ends of lines if only blanks follow.
unfoldable pub read_field : Str → Str → HttpFixtureEntry → HttpFixtureEntry
unfolding skip_blanks to_i32 strtoll10 starts_with
read_field line p e =
    if starts_with line (codes "URL_MATCH")
    then record e { match_url = some (skip_blanks (drop 9 line)) }
    else if starts_with line (codes "STATUS")
    then record e { status = atoi (drop 6 p) }
    else if starts_with line (codes "BODY")
    then record e { body = some (skip_blanks (drop 4 line)) }
    else e

-- A change of the entry that is being read: the first one, or else a new one.
abbrev pub on_current :
    (HttpFixtureEntry → HttpFixtureEntry) → Bool → List HttpFixtureEntry → List HttpFixtureEntry
on_current f true (e ∷ es) = f e ∷ es
on_current f _ es = f new_entry ∷ es

-- Every round takes a line with its end; `cur` tells whether the first entry is being read.
unfoldable pub fixture_lines : ℕ → Str → Bool → List HttpFixtureEntry → List HttpFixtureEntry
unfolding cut_line drop_cr read_field
fixture_lines zero p cur es = es
fixture_lines (suc fuel) [] cur es = es
fixture_lines (suc fuel) (c ∷ s) cur es =
    let (whole, rest) = cut_line (c ∷ s) in
    let line = drop_cr whole in
    let blank = is_empty line in
    let es' = if blank then es else on_current (read_field line (c ∷ s)) cur es in
    elim rest [ none ↦ es' | some t ↦ fixture_lines fuel t (if blank then false else true) es' ]

abbrev bytes : Str → ℕ
bytes [] = 0
bytes (_ ∷ s) = suc (bytes s)

unfoldable pub http_fixture_load : Str → List HttpFixtureEntry
unfolding fixture_lines
http_fixture_load text = fixture_lines (bytes text) text false []

abbrev pub entry_matches : Str → HttpFixtureEntry → Bool
entry_matches url e = elim e.match_url [ none ↦ false | some m ↦ contains url m ]

unfoldable pub http_fixture_match : List HttpFixtureEntry → Str → Option HttpFixtureEntry
http_fixture_match es url = find (entry_matches url) es
