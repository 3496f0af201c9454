-- ===== src/Builtins/Lists.antt =====
-- src/builtins.c: the built-ins that cut lists and put them together. `none` is a read outside of
-- the list's items.
use sakura_slemu.Base.{
  ℕ, suc, ◌-◌, Bool, ◌&&◌, ◌||◌, Option, none, some, List, [], ◌∷◌, ◌++◌, ℤ, pos, pos_part, to_i32,
  ◌+ℤ◌, ◌-ℤ◌, leb_ℤ, ltb_ℤ, if◌then◌else◌, length, take, drop,
}
use mathlib.Core.Option
use sakura_slemu.Double.{Double}
use sakura_slemu.Value.{SValue, list, nil, items, of_items}
use sakura_slemu.Builtins.Args.{ai}

-- if (i < 0) i += n
unfoldable pub from_end : ℤ → ℕ → ℤ
from_end i n = if ltb_ℤ i (pos 0) then i +ℤ pos n else i

abbrev pub at_least : ℤ → ℤ → ℤ
at_least m i = if ltb_ℤ i m then m else i

abbrev pub at_most : ℤ → ℤ → ℤ
at_most m i = if ltb_ℤ m i then m else i

module _ {A : Type 0} where
  -- The items that a loop from `lo` to before `hi` reads.
  unfoldable pub copied : List A → ℤ → ℤ → Option (List A)
  copied xs lo hi =
      if leb_ℤ hi lo
      then some []
      else if leb_ℤ (pos 0) lo && leb_ℤ hi (pos (length xs))
      then some (take (pos_part hi - pos_part lo) (drop (pos_part lo) xs))
      else none

  -- The three loops of an insertion or a replacement.
  abbrev pub around : List A → Option (List A) → Option (List A) → Option (List A)
  around ys (some front) (some back) = some (front ++ (ys ++ back))
  around ys _ _ = none

  abbrev pub spliced : List A → ℤ → List A → ℤ → Option (List A)
  spliced xs before ys behind =
      around ys (copied xs (pos 0) before) (copied xs behind (pos (length xs)))

  -- The items at the places that pass a test; the first one is at place `k`.
  abbrev pub kept_at : (ℤ → Bool) → ℕ → List A → List A
  kept_at test k [] = []
  kept_at test k (x ∷ xs) =
      let rest = kept_at test (suc k) xs in if test (pos k) then x ∷ rest else rest

module _ {F : Type 0} (D : Double F) where
  abbrev pub as_list : Option (List (SValue F)) → Option (SValue F)
  as_list o = Option.map (λ l. list (of_items l)) o

  abbrev pub int_arg : List (SValue F) → ℕ → ℤ
  int_arg a i = to_i32 (ai D a i)

  abbrev pub sublist : List (SValue F) → ℤ → ℤ → Option (List (SValue F))
  sublist xs i j = if leb_ℤ i j then copied xs i (j +ℤ pos 1) else some []

  unfoldable pub bi_ll_list2list : List (SValue F) → Option (SValue F)
  unfolding ai from_end copied to_i32
  bi_ll_list2list (list l ∷ more) =
      let a = list l ∷ more in
      let xs = items l in
      let i = at_least (pos 0) (from_end (int_arg a 1) (length xs)) in
      let j = at_most (pos (length xs) -ℤ pos 1) (from_end (int_arg a 2) (length xs)) in
      as_list (sublist xs i j)
  bi_ll_list2list _ = some (list nil)

  unfoldable pub bi_ll_list_insert_list : List (SValue F) → Option (SValue F)
  unfolding ai from_end copied to_i32
  bi_ll_list_insert_list (list l ∷ list m ∷ more) =
      let a = list l ∷ list m ∷ more in
      let xs = items l in
      let p = at_most (pos (length xs)) (at_least (pos 0) (from_end (int_arg a 2) (length xs))) in
      as_list (spliced xs p (items m) p)
  bi_ll_list_insert_list (v ∷ _) = some v
  bi_ll_list_insert_list [] = none

  unfoldable pub bi_ll_list_replace_list : List (SValue F) → Option (SValue F)
  unfolding ai from_end copied to_i32
  bi_ll_list_replace_list (list l ∷ list m ∷ v ∷ w ∷ more) =
      let a = list l ∷ list m ∷ v ∷ w ∷ more in
      let xs = items l in
      let st = at_least (pos 0) (from_end (int_arg a 2) (length xs)) in
      let en = at_most (pos (length xs) -ℤ pos 1) (from_end (int_arg a 3) (length xs)) in
      as_list (spliced xs st (items m) (en +ℤ pos 1))
  bi_ll_list_replace_list (v ∷ _) = some v
  bi_ll_list_replace_list [] = none

  unfoldable pub bi_ll_delete_sub_list : List (SValue F) → SValue F
  unfolding ai from_end to_i32
  bi_ll_delete_sub_list (list l ∷ more) =
      let a = list l ∷ more in
      let xs = items l in
      let st = from_end (int_arg a 1) (length xs) in
      let en = from_end (int_arg a 2) (length xs) in
      list (of_items (kept_at (λ i. ltb_ℤ i st || ltb_ℤ en i) 0 xs))
  bi_ll_delete_sub_list _ = list nil
