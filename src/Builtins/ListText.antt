-- ===== src/Builtins/ListText.antt =====
-- src/builtins.c: the built-ins that read the items of lists, join and split texts.
use sakura_slemu.Base.{
  ℕ, zero, suc, Bool, not, ◌&&◌, ◌||◌, Option, none, some, List, [], ◌∷◌, ◌++◌, map, Str, codes,
  is_empty, starts_with, ℤ, pos, pos_part, ltb_ℤ, to_i32, strtoll0, ◌==◌, if◌then◌else◌, length,
  drop, get_elem?,
}
use sakura_slemu.Double.{Double}
use sakura_slemu.Value.{
  SValue, integer, float, string, key, vector, rotation, list, nil, items, of_items, list_items,
  type_of, sv_to_string, sv_integer, sv_float, sv_string, sv_key, sv_vector, f_zero, f_one,
  null_key,
}
use sakura_slemu.Builtins.Args.{ai, as_text}
use sakura_slemu.Builtins.Lists.{from_end}

-- The texts with a separator between them.
unfoldable pub join : Str → List Str → Str
join sep [] = []
join sep (t ∷ []) = t
join sep (t ∷ u ∷ ts) = t ++ (sep ++ join sep (u ∷ ts))

module _ {F : Type 0} (D : Double F) where
  -- The value that stands for a missing item.
  abbrev pub absent : ℕ → SValue F
  absent want =
      if want == sv_integer
      then integer (pos 0)
      else if want == sv_float
      then float (f_zero D)
      else if want == sv_string
      then string []
      else if want == sv_key
      then key null_key
      else if want == sv_vector
      then vector (f_zero D) (f_zero D) (f_zero D)
      else rotation (f_zero D) (f_zero D) (f_zero D) (f_one D)

  abbrev pub as_integer : SValue F → ℤ
  as_integer (integer i) = i
  as_integer (float f) = D.to_int f
  as_integer (string s) = strtoll0 s
  as_integer (key s) = strtoll0 s
  as_integer _ = pos 0

  -- The keys are not read as numbers.
  abbrev pub as_float : SValue F → F
  as_float (integer i) = D.of_int i
  as_float (float f) = f
  as_float (string s) = D.strtod s
  as_float _ = f_zero D

  -- An item in the type that is asked for: one of the six of the llList2… functions.
  unfoldable pub converted : ℕ → SValue F → SValue F
  unfolding sv_to_string
  converted want v =
      if type_of v == want
      then v
      else if want == sv_string
      then string (sv_to_string D v)
      else if want == sv_integer
      then integer (as_integer v)
      else if want == sv_float
      then float (as_float v)
      else if want == sv_key
      then key (sv_to_string D v)
      else absent want

  -- The item at the place of the second argument; negative ones count from the end.
  unfoldable pub list_at : ℕ → List (SValue F) → SValue F
  unfolding ai converted from_end to_i32
  list_at want (list l ∷ more) =
      let i = from_end (to_i32 (ai D (list l ∷ more) 1)) (length (items l)) in
      let item = if ltb_ℤ i (pos 0) then none else get_elem? (items l) (pos_part i) in
      elim item [ none ↦ absent want | some v ↦ converted want v ]
  list_at want _ = absent want

  unfoldable pub bi_ll_get_list_length : List (SValue F) → SValue F
  bi_ll_get_list_length (list l ∷ more) = integer (pos (length (items l)))
  bi_ll_get_list_length _ = integer (pos 0)

  unfoldable pub bi_ll_dump_list2_string : List (SValue F) → SValue F
  unfolding as_text sv_to_string join
  bi_ll_dump_list2_string (list l ∷ more) =
      string (join (as_text (list l ∷ more) 1) (map (sv_to_string D) (items l)))
  bi_ll_dump_list2_string _ = string []

  unfoldable pub bi_ll_list2_csv : List (SValue F) → SValue F
  unfolding sv_to_string join
  bi_ll_list2_csv (list l ∷ more) = string (join (codes ", ") (map (sv_to_string D) (items l)))
  bi_ll_list2_csv _ = string []

-- The blanks in front of a part are cut off.
unfoldable pub skip_blank : Str → Str
skip_blank [] = []
skip_blank (c ∷ s) = let rest = skip_blank s in if c == 32 then rest else c ∷ s

-- The parts between commas, from the part `acc` on. The last one keeps its blanks.
unfoldable pub csv_parts : Str → Str → List Str
unfolding skip_blank
csv_parts acc [] = acc ∷ []
csv_parts acc (c ∷ s) =
    let next = skip_blank acc ∷ csv_parts [] s in
    let more = csv_parts (acc ++ (c ∷ [])) s in if c == b',' then next else more

-- The first of the texts that stands at the front, the empty ones left out.
unfoldable pub first_match : List Str → Str → Option Str
unfolding starts_with
first_match [] rest = none
first_match (t ∷ ts) rest =
    if not (is_empty t) && starts_with rest t then some t else first_match ts rest

-- A piece that is not empty is kept, and every one if `keep` says so.
abbrev pub kept : Bool → Str → List Str
kept keep acc = if keep || not (is_empty acc) then acc ∷ [] else []

-- The loop of parse_string2list, with a bound on the rounds: `acc` is the text from `start` to `pos`,
-- and the rest is behind `pos`.
unfoldable pub parse_from : ℕ → Bool → List Str → List Str → Str → Str → List Str
unfolding first_match
parse_from fuel keep seps spacers acc [] = kept keep acc
parse_from zero keep seps spacers acc (c ∷ s) = []
parse_from (suc fuel) keep seps spacers acc (c ∷ s) =
    let cut_at = λ (m : Str) (spacer : List Str).
      kept keep acc ++ (spacer ++ parse_from fuel keep seps spacers [] (drop (length m) (c ∷ s))) in
    let on = parse_from fuel keep seps spacers (acc ++ (c ∷ [])) s in
    elim (first_match seps (c ∷ s)) [
      | some m ↦ cut_at m []
      | none ↦ elim (first_match spacers (c ∷ s)) [ some m ↦ cut_at m (m ∷ []) | none ↦ on ]
    ]

module _ {F : Type 0} where
  unfoldable pub bi_ll_csv2_list : List (SValue F) → SValue F
  unfolding as_text csv_parts
  bi_ll_csv2_list a = list (of_items (map string (csv_parts [] (as_text a 0))))

  -- The items that are strings; only those separate.
  unfoldable pub strings_of : List (SValue F) → List Str
  strings_of [] = []
  strings_of (string s ∷ vs) = s ∷ strings_of vs
  strings_of (_ ∷ vs) = strings_of vs

  abbrev pub strings_at : List (SValue F) → ℕ → List Str
  strings_at a i = elim (get_elem? a i) [ none ↦ [] | some v ↦ strings_of (list_items v) ]

  -- Each round takes at least one byte.
  unfoldable pub parse_string2list : Bool → List (SValue F) → SValue F
  unfolding as_text strings_of parse_from
  parse_string2list keep [] = list nil
  parse_string2list keep (v ∷ more) =
      let src = as_text (v ∷ more) 0 in
      list (
        of_items (
          map string (
            parse_from (length src) keep (strings_at (v ∷ more) 1) (strings_at (v ∷ more) 2) []
              src)))
