-- ===== src/Builtins/Strings.antt =====
-- src/builtins.c: the built-ins on texts. `none` is a read or a copy outside of the text.
use sakura_slemu.Base.{
  ℕ, suc, ◌+◌, ◌-◌, ◌%◌, ◌&&◌, ◌||◌, Option, none, some, List, [], ◌∷◌, ◌++◌, map, Str, ℤ, pos,
  negsuc, pos_part, ltb_ℤ, to_i32, ltb, leb, ◌==◌, if◌then◌else◌, length, take, drop, get_elem?,
  strstr, skip_space, word, two32,
}
use mathlib.Core.List.{reverse}
use mathlib.Core.Option
use sakura_slemu.Double.{Double}
use sakura_slemu.Value.{SValue, integer, string}
use sakura_slemu.Builtins.Args.{ai, as_text}
use sakura_slemu.Builtins.Lists.{from_end, at_least, at_most}

-- A place in a text of `len` bytes: negative ones count from the end.
unfoldable pub norm_idx : ℤ → ℕ → ℕ
unfolding from_end
norm_idx i len = pos_part (at_most (pos len) (at_least (pos 0) (from_end i len)))

-- The bytes from `i` up to `j` and with it; if `j` is before `i`, the end from `i` on and then the
-- front up to `j`.
unfoldable pub get_sub_string : Str → ℕ → ℕ → Str
get_sub_string st i j =
    if ltb j i then drop i st ++ take (suc j) st else take (suc j - i) (drop i st)

-- The text without the bytes from `i` to `j`. If `j` is the end of the text, memcpy is given a
-- negative length.
unfoldable pub delete_sub_string : Str → ℕ → ℕ → Option Str
delete_sub_string st i j =
    if leb (length st) j then none else some (take (if ltb j i then j else i) st ++ drop (suc j) st)

unfoldable pub insert_string : Str → ℕ → Str → Str
insert_string st i t = take i st ++ (t ++ drop i st)

-- tolower and toupper, in the C locale.
abbrev pub to_lower : ℕ → ℕ
to_lower c = if leb b'A' c && leb c b'Z' then c + 32 else c

abbrev pub to_upper : ℕ → ℕ
to_upper c = if leb b'a' c && leb c b'z' then c - 32 else c

unfoldable pub skip_space_back : Str → Str
unfolding skip_space
skip_space_back s = reverse (skip_space (reverse s))

module _ {F : Type 0} (D : Double F) where
  unfoldable pub bi_ll_string_length : List (SValue F) → SValue F
  unfolding as_text
  bi_ll_string_length a = integer (pos (length (as_text a 0)))

  unfoldable pub bi_ll_sub_string_index : List (SValue F) → SValue F
  unfolding as_text strstr
  bi_ll_sub_string_index a =
      integer (elim (strstr (as_text a 0) (as_text a 1)) [ none ↦ negsuc 0 | some k ↦ pos k ])

  abbrev pub place : List (SValue F) → ℕ → ℕ
  place a k = norm_idx (to_i32 (ai D a k)) (length (as_text a 0))

  unfoldable pub bi_ll_get_sub_string : List (SValue F) → SValue F
  unfolding as_text ai norm_idx get_sub_string to_i32
  bi_ll_get_sub_string a = string (get_sub_string (as_text a 0) (place a 1) (place a 2))

  unfoldable pub bi_ll_delete_sub_string : List (SValue F) → Option (SValue F)
  unfolding as_text ai norm_idx delete_sub_string to_i32
  bi_ll_delete_sub_string a =
      Option.map string (delete_sub_string (as_text a 0) (place a 1) (place a 2))

  unfoldable pub bi_ll_insert_string : List (SValue F) → SValue F
  unfolding as_text ai norm_idx insert_string to_i32
  bi_ll_insert_string a = string (insert_string (as_text a 0) (place a 1) (as_text a 2))

  unfoldable pub bi_ll_to_lower : List (SValue F) → SValue F
  unfolding as_text
  bi_ll_to_lower a = string (map to_lower (as_text a 0))

  unfoldable pub bi_ll_to_upper : List (SValue F) → SValue F
  unfolding as_text
  bi_ll_to_upper a = string (map to_upper (as_text a 0))

  -- Bit 0 of the mode trims the front, bit 1 the end.
  unfoldable pub string_trim : ℕ → Str → Str
  unfolding skip_space skip_space_back
  string_trim mode t =
      let front = if mode % 2 == 1 then skip_space t else t in
      if leb 2 (mode % 4) then skip_space_back front else front

  unfoldable pub bi_ll_string_trim : List (SValue F) → SValue F
  unfolding as_text ai string_trim to_i32
  bi_ll_string_trim a =
      string
        (string_trim (if ltb 1 (length a) then word two32 (to_i32 (ai D a 1)) else 3) (as_text a 0))

  unfoldable pub bi_ll_char : List (SValue F) → SValue F
  unfolding ai
  bi_ll_char a =
      let c = ai D a 0 in
      let d = if ltb_ℤ c (pos 0) || ltb_ℤ (pos 127) c then b'?' else pos_part c in
      string (if d == 0 then [] else d ∷ [])

  unfoldable pub bi_ll_ord : List (SValue F) → SValue F
  unfolding as_text ai to_i32
  bi_ll_ord a =
      let i = to_i32 (ai D a 1) in
      let byte = if ltb_ℤ i (pos 0) then none else get_elem? (as_text a 0) (pos_part i) in
      integer (elim byte [ none ↦ pos 0 | some c ↦ pos c ])
